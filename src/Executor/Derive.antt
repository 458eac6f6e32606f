-- ===== src/Executor/Derive.antt =====
-- What the stored events say of a node: eventsForDag, deriveNodeState, chooseAttemptForResume.
pub mod Resume
use cognitive_runtime.Prelude.{
  ℕ, suc, ◌+◌, max, ◌==◌, leb, Bool, true, false, ◌&&◌, not, if◌then◌else◌, is_some, Option, none,
  some, List, [], ◌∷◌, ◌++◌, any, keep, Text, text, text_eq,
}
use cognitive_runtime.Contracts.EventTypes.{node_started, node_failed, node_succeeded, is_type}
use cognitive_runtime.Contracts.Dag.{
  NodeKind, llm_chat, enforce_reply_constraints, is_kind, DagNode,
}
use cognitive_runtime.Contracts.Events.{RunEvent}
use cognitive_runtime.Contracts.Json.{Json, nonempty_string, member}

pub record DerivedNodeState : Type 0 where
  pub succeeded : Bool
  pub max_attempt_seen : ℕ
  pub started_attempts : List ℕ
  pub failed_attempts : List ℕ
  pub succeeded_attempts : List ℕ
  pub last_succeeded_output : Option Json

-- A set of numbers, its members in the order of insertion.
abbrev pub has_num : ℕ → List ℕ → Bool
has_num a s = any (λ b. b == a) s

unfoldable pub add_num : ℕ → List ℕ → List ℕ
add_num a s = if has_num a s then s else s ++ a ∷ []

abbrev pub is_text : Option Text → Text → Bool
is_text none t = false
is_text (some s) t = text_eq s t

-- A missing or empty `dag_id` belongs to no DAG.
abbrev pub of_dag : Text → Option Text → Bool
of_dag dag_id (some (a ∷ s)) = text_eq (a ∷ s) dag_id
of_dag dag_id _ = false

unfoldable pub events_for_dag : Text → List RunEvent → List RunEvent
events_for_dag dag_id events = keep (λ e. of_dag dag_id e.payload.dag_id) events

unfoldable pub get_assistant_text : Option Json → Option Text
unfolding member
get_assistant_text none = none
get_assistant_text (some v) = nonempty_string (member (text "assistant_text") v)

unfoldable pub get_final_assistant_text : Option Json → Option Text
unfolding member
get_final_assistant_text none = none
get_final_assistant_text (some v) = nonempty_string (member (text "final_assistant_text") v)

-- The sets that the loop of deriveNodeState fills.
pub record Seen : Type 0 where
  pub started : List ℕ
  pub failed : List ℕ
  pub succeeded : List ℕ
  pub output : Option Json

-- `Number.isFinite(attemptRaw) && attemptRaw >= 1 ? attemptRaw : null`
abbrev pub valid_attempt : Option ℕ → Option ℕ
valid_attempt (some (suc n)) = some (suc n)
valid_attempt _ = none

-- An output that is `undefined` leaves the last one.
abbrev pub or_keep : Option Json → Option Json → Option Json
or_keep none old = old
or_keep (some v) old = some v

unfoldable pub see_attempt : RunEvent → ℕ → Seen → Seen
unfolding is_type add_num
see_attempt e attempt s = record {
  started = if is_type e.type node_started then add_num attempt s.started else s.started;
  failed = if is_type e.type node_failed then add_num attempt s.failed else s.failed;
  succeeded = if is_type e.type node_succeeded then add_num attempt s.succeeded else s.succeeded;
  output = if is_type e.type node_succeeded then or_keep e.payload.output s.output else s.output;
}

abbrev pub see_if_valid : RunEvent → Option ℕ → Seen → Seen
see_if_valid e none s = s
see_if_valid e (some attempt) s = see_attempt e attempt s

unfoldable pub see_event : Text → RunEvent → Seen → Seen
unfolding see_attempt
see_event id e s =
    if is_text e.payload.node_id id then see_if_valid e (valid_attempt e.payload.attempt) s else s

unfoldable pub see_all : Text → List RunEvent → Seen → Seen
unfolding see_event
see_all id [] s = s
see_all id (e ∷ es) s = see_all id es (see_event id e s)

-- `Math.max` over the members, from 0.
unfoldable pub max_of : List ℕ → ℕ
max_of [] = 0
max_of (a ∷ s) = max a (max_of s)

unfoldable pub materially_succeeded : NodeKind → Seen → Bool
unfolding is_kind get_assistant_text get_final_assistant_text
materially_succeeded kind s =
    any (λ _. true) s.succeeded
    && (if is_kind kind llm_chat
        then is_some (get_assistant_text s.output)
        else if is_kind kind enforce_reply_constraints
        then is_some (get_final_assistant_text s.output)
        else true)

unfoldable pub derive_node_state : DagNode → List RunEvent → DerivedNodeState
unfolding see_all max_of materially_succeeded
derive_node_state node dag_events =
    let s =
      see_all node.id dag_events
        (record { started = []; failed = []; succeeded = []; output = none }) in
    record {
      succeeded = materially_succeeded node.kind s;
      max_attempt_seen = max_of (s.started ++ (s.failed ++ s.succeeded));
      started_attempts = s.started;
      failed_attempts = s.failed;
      succeeded_attempts = s.succeeded;
      last_succeeded_output = s.output;
    }

-- The attempts that were started and neither failed nor succeeded. Each is at least 1.
unfoldable pub in_flight : DerivedNodeState → List ℕ
in_flight st =
    keep
      (λ a.
        leb 1 a && (not (has_num a st.failed_attempts) && not (has_num a st.succeeded_attempts)))
      st.started_attempts

unfoldable pub choose_attempt_for_resume : DerivedNodeState → ℕ
unfolding in_flight max_of
choose_attempt_for_resume st =
    if any (λ _. true) (in_flight st) then max_of (in_flight st) else st.max_attempt_seen + 1
