-- ===== src/Samples/Worker.antt =====
-- The theorems on the worker's jobs, at a job whose memory fails and whose planner decides nothing.
use cognitive_runtime.Prelude.{
  ℕ, ◌+◌, ◌≤◌, ◌≡◌, refl, true, false, Bool, Option, if◌then◌else◌, none, some, [], ◌∷◌, text,
  text_eq, arith,
}
use cognitive_runtime.Contracts.Json.{Json, Fields, end, field, null}
use cognitive_runtime.Contracts.EventTypes
use cognitive_runtime.Contracts.EventTypes.{RunEventType, is_type}
use cognitive_runtime.Contracts.Events.{RunEvent, EventData, no_data, create_run_event}
use cognitive_runtime.Executor.Outcome.{ok, thrown, error, Thrown}
use cognitive_runtime.Executor.Effects.{
  and_then, ask, append_new, append, list_by_run_id, Services, State, throw, try_catch, ◌>>◌,
}
use cognitive_runtime.Executor.Returns.{Returns}
use cognitive_runtime.Executor.Tests.{services_of, empty_state, chat_dag}
use cognitive_runtime.Lifecycle.{Phase7Config, is_run_cancelled}
use cognitive_runtime.Lifecycle.Active.{get_active_node_id}
use cognitive_runtime.Runs.Routes.{RunJob}
use cognitive_runtime.Samples.Reward.{numbers}
use cognitive_runtime.Worker.Ends.{
  IsWorking, IsPlain, IsClosed, Settles, status_changed, started, failed, cancelled, work-ends,
}
use cognitive_runtime.Worker.Quiet.{completions, IsQuiet}
use cognitive_runtime.Worker.Walk.{IsAlone}
use cognitive_runtime.Worker.Once.{work-IsOnce}
use cognitive_runtime.Worker.Stopped.{check_cancelled-stops}
use cognitive_runtime.Worker.Repeat.{arrived, work-twice}
use cognitive_runtime.Worker.Job.{
  Runtime, close, cancel, classify, list_events, check_cancelled, attempt_run, report, z_run_job,
  arrive, work,
}

abbrev config : Phase7Config
config = record {
  enable_code_change_workflow = false;
  enable_replanning = false;
  enable_policy_gate = true;
  enable_run_cancellation = true;
  max_planner_loops = 3;
  run_timeout_ms = 300000;
  stale_heartbeat_ms = 60000;
}

abbrev pub runtime_with : (Context : Type 0) → Runtime ℕ ℕ Context (Unit {0})
runtime_with Context = record {
  config = config;
  worker_id = text "worker-1";
  llama_url = text "u";
  history_limit = 6;
  prompt_preamble = [];
  arrivals = λ w. ([], w + 1);
  parse_ms = λ ts. none;
  to_lower_case = λ t. t;
  details_of = λ e. Json.null;
  scoring = record {
    numbers = numbers;
    time_of = λ ts. 0;
    iso_of = λ n. [];
    sha256 = λ t. [];
    list_type_fails = λ type w. none;
  };
  retrieve_context = λ job. throw (error (text "no memory"));
  set_context = λ id c. throw (error (text "no cache"));
  plan = λ job dag. throw (error (text "no planner"));
  decided_dag = λ d. chat_dag;
  fallback_used = λ d. true;
  evaluate = λ job d events. thrown (error (text "no evaluation"));
  maybe_write = λ job events dag_ok score. throw (error (text "no memory"));
}

abbrev runtime : Runtime ℕ ℕ (Unit {0}) (Unit {0})
runtime = runtime_with (Unit {0})

abbrev pub job : RunJob
job = record {
  run_id = chat_dag.run_id;
  trace_id = text "t";
  chat_id = chat_dag.chat_id;
  message_id = text "m";
  message = text "hi";
}

abbrev pub services : Services ℕ
services = services_of (some (text "hello"))

-- Refuses what the schemas of RUN_CANCELLED and RUN_TIMEOUT_REACHED refuse: a member that is null.
abbrev has_null : Fields → Bool
has_null end = false
has_null (field k null fs) = true
has_null (field k v fs) = has_null fs

abbrev schema_rejects : RunEventType → EventData → Option Thrown
schema_rejects EventTypes.run_cancelled d =
    if has_null d.rest then some (error (text "schema")) else none
schema_rejects EventTypes.run_timeout_reached d =
    if has_null d.rest then some (error (text "schema")) else none
schema_rejects _ d = none

abbrev strict_services : Services ℕ
strict_services = record services { rejects = λ e w. schema_rejects e.type e.payload }

strict_services-IsWorking : IsWorking strict_services runtime.worker_id job
strict_services-IsWorking = record { accepts = taken; lists = λ run_id w. refl }
  where
    taken :
        {type : RunEventType} {d : EventData} (w : ℕ)
        → IsPlain runtime.worker_id type d
        → strict_services.rejects
            (create_run_event (strict_services.iso_now w).0 job.run_id job.chat_id type d)
            (strict_services.iso_now w).1
          ≡ none
    taken w (status_changed a b) = refl
    taken w started = refl
    taken w (failed m d) = refl
    taken w (IsPlain.completed b) = refl
    taken w (cancelled node) = refl

pub still : (s : State ℕ) → IsQuiet job.run_id s s
still s = record { none_added = omega arith }

runtime-IsAlone : IsAlone runtime job
unfolding completions
runtime-IsAlone = record {
  arrivals = λ w. refl;
  retrieve_context = record { after = still };
  set_context = λ c. record { after = still };
  plan = λ dag. record { after = still };
  maybe_write = λ events dag_ok score. record { after = still };
}

work-ends_example :
    Settles strict_services runtime job strict_services-IsWorking
      (IsClosed job.run_id)
      (work strict_services runtime job empty_state)
unfolding z_run_job
work-ends_example = work-ends strict_services runtime job strict_services-IsWorking refl empty_state

abbrev pub completed : RunEvent
completed = record {
  ts = text "1000";
  run_id = job.run_id;
  chat_id = job.chat_id;
  type = EventTypes.run_completed;
  payload = record no_data { ok = some true };
}

abbrev pub state_at : ℕ → State ℕ
state_at n = record { log = completed ∷ []; seen = []; world = n }

work-twice_example :
    Returns
      (λ _ u.
        u
        ≡ arrived strict_services runtime job strict_services-IsWorking
            (work strict_services runtime job empty_state).1)
      (work strict_services runtime job (work strict_services runtime job empty_state).1)
unfolding z_run_job
work-twice_example =
    work-twice strict_services runtime job strict_services-IsWorking refl empty_state

work-IsOnce_example : completions job.run_id (work services runtime job (state_at 0)).1.log ≤ 1
unfolding completions text_eq is_type
work-IsOnce_example = work-IsOnce services runtime job runtime-IsAlone (state_at 0) (omega arith)

abbrev requested : RunEvent
requested = record {
  ts = text "1000";
  run_id = job.run_id;
  chat_id = job.chat_id;
  type = EventTypes.run_cancel_requested;
  payload = no_data;
}

abbrev requested_state : State ℕ
requested_state = record { log = requested ∷ []; seen = []; world = 0 }

check_cancelled-stops_example :
    try_catch
      (check_cancelled services runtime job >> attempt_run services runtime job)
      (report services runtime job)
      requested_state
    ≡ (ok false, (arrive services runtime job requested_state).1)
unfolding arrive is_run_cancelled is_type text_eq
check_cancelled-stops_example =
    check_cancelled-stops services runtime job (attempt_run services runtime job) requested_state
      refl refl

-- The schema refuses the RUN_CANCELLED of a run with no active node, and the handler throws.
cancelled_idle :
    (close strict_services runtime job [] true requested_state).0 ≡ thrown (error (text "schema"))
unfolding close classify list_events arrive list_by_run_id cancel get_active_node_id
    is_run_cancelled and_then ask append_new append is_type text_eq
cancelled_idle = refl
