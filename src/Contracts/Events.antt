-- ===== src/Contracts/Events.antt =====
-- Run events (packages/contracts/src/events.ts and phase7.ts). The members of `data` that the
-- modelled code reads or writes are fields, `none` where the key is missing; the other members of
-- an event are the object `rest`.
use cognitive_runtime.Prelude.{ℕ, Bool, Option, none, Text}
use cognitive_runtime.Contracts.EventTypes.{RunEventType}
use cognitive_runtime.Contracts.Dag.{NodeKind, NodeError, RunStatus}
use cognitive_runtime.Contracts.Json.{Json, Fields}

pub data FailedRunClass : Type 0 where
  transient permanent dead_letter cancelled stale : FailedRunClass

pub data PolicyVerdict : Type 0 where
  allowed blocked require_review : PolicyVerdict

pub record EventData : Type 0 where
  pub dag_id : Option Text
  pub node_id : Option Text
  pub attempt : Option ℕ
  pub kind : Option NodeKind
  pub node_count : Option ℕ
  pub ok : Option Bool
  pub output : Option Json
  pub output_bytes : Option ℕ
  pub error : Option NodeError
  pub from_status : Option RunStatus
  pub to_status : Option RunStatus
  pub role : Option Text
  pub message : Option Text
  pub message_id : Option Text
  pub trace_id : Option Text
  pub code : Option Text
  pub verdict : Option PolicyVerdict
  pub classification : Option FailedRunClass
  pub retriable : Option Bool
  pub latency_ms : Option ℕ
  pub next_attempt_in_ms : Option ℕ
  pub rest : Fields

-- `{}`
abbrev pub no_data : EventData
no_data = record {
  dag_id = none;
  node_id = none;
  attempt = none;
  kind = none;
  node_count = none;
  ok = none;
  output = none;
  output_bytes = none;
  error = none;
  from_status = none;
  to_status = none;
  role = none;
  message = none;
  message_id = none;
  trace_id = none;
  code = none;
  verdict = none;
  classification = none;
  retriable = none;
  latency_ms = none;
  next_attempt_in_ms = none;
  rest = Fields.end;
}

pub record RunEvent : Type 0 where
  pub ts : Text
  pub run_id : Text
  pub chat_id : Text
  pub type : RunEventType
  pub payload : EventData

-- `now` is the clock's `toISOString()`.
abbrev pub create_run_event : (now run_id chat_id : Text) → RunEventType → EventData → RunEvent
create_run_event now run_id chat_id type payload = record {
  ts = now;
  run_id = run_id;
  chat_id = chat_id;
  type = type;
  payload = payload;
}
