-- ===== src/Samples.antt =====
-- The theorems at concrete runs, events and configurations.
pub mod Reward
pub mod Derived
pub mod Worker
pub mod Runs
pub mod Memory
pub mod Semantic
use cognitive_runtime.Prelude.{
  ℕ, ◌≡◌, refl, ◌↔◌, ◌≤◌, ◌<◌, ltb, every, All, text_lt, Bool, true, false, Option, none, some,
  List, [], ◌∷◌, ◌++◌, any, is_some, Text, text, text_eq, ℤ, negsuc, arith,
}
use cognitive_runtime.Contracts.Dag
use cognitive_runtime.Contracts.Dag.{DagNode}
use cognitive_runtime.Contracts.EventTypes
use cognitive_runtime.Contracts.EventTypes.{RunEventType, is_type}
use cognitive_runtime.Contracts.Events.{RunEvent, EventData, no_data, dead_letter}
use cognitive_runtime.Executor.Outcome.{ok}
use cognitive_runtime.Executor.Effects.{State, ReplyPattern, Captures}
use cognitive_runtime.Executor.Reply
use cognitive_runtime.Executor.Prompt
use cognitive_runtime.Executor.Reply.Forced.{IsReply, all_rules, enforce_reply_constraints-IsReply}
use cognitive_runtime.Executor.Derive.{derive_node_state, choose_attempt_for_resume, events_for_dag}
use cognitive_runtime.Executor.Derive.Resume.{IsFresh, resume-IsFresh}
use cognitive_runtime.Executor.Order.{drain, fuel_for, stable_topological_order}
use cognitive_runtime.Executor.Order.Members.{IsOrder, stable_topological_order-IsOrder}
use cognitive_runtime.Executor.Order.Terminates.{drain-terminates}
use cognitive_runtime.Executor.Progress.{Progress}
use cognitive_runtime.Executor.Run.{execute_dag, execute_fresh, run_nodes, last_dag_completed}
use cognitive_runtime.Executor.Ensures.{Ensures}
use cognitive_runtime.Executor.Dependencies.Walk.{Walks, run_nodes-Walks}
use cognitive_runtime.Executor.Log.{Adds, execute_fresh-Adds}
use cognitive_runtime.Executor.Log.Resumed.{Extends, execute_dag-Extends}
use cognitive_runtime.Executor.Log.Redelivered.{execute_dag_completed}
use cognitive_runtime.Executor.Tests.{node, services_of, context, empty_state, chat_dag}
use cognitive_runtime.Executor.Validate.{validate_dag_spec_or_throw}
use cognitive_runtime.Lifecycle.{
  create_phase7_config, is_run_timed_out, get_elapsed_since_start, is_heartbeat_stale, is_pulse,
}
use cognitive_runtime.Lifecycle.Classify.{classify_failed_run, is_policy_block}
use cognitive_runtime.Lifecycle.Clock.{
  IsSafe, IsOver, create_phase7_config-IsSafe, is_run_timed_out_iff, is_heartbeat_stale-pulse,
  is_heartbeat_stale-other,
}
use cognitive_runtime.Lifecycle.Failures.{
  IsConsistent, HasFailed, classify_failed_run-IsConsistent, classify_failed_run-dead_letter,
}
use cognitive_runtime.Lifecycle.Active.{
  get_active_node_id, starts, finishes, get_active_node_id-some, get_active_node_id-none,
  is_running,
}
use cognitive_runtime.Planner.{PlanParams, plan_dag_for_run, plan_code_change_dag}
use cognitive_runtime.Planner.Valid.{
  IsAccepted, plan_dag_for_run-IsAccepted, plan_code_change_dag-IsAccepted,
}
use cognitive_runtime.Policy.{PolicyEvalContext, is_code_change, evaluate_policy}
use cognitive_runtime.Policy.Verdict.{decide_verdict, is_risky, evaluate_policy-verdict}
use cognitive_runtime.Uuid.{uuid_v5, parse_uuid_to_bytes, bytes_to_uuid_string}
use cognitive_runtime.Uuid.Version.{IsDigest, IsVersion5, named_bytes, uuid_v5-IsVersion5}
use cognitive_runtime.Uuid.RoundTrip.{parse-bytes_to_uuid_string}

abbrev event : RunEventType → EventData → RunEvent
event type payload = record {
  ts = text "1000";
  run_id = chat_dag.run_id;
  chat_id = text "c";
  type = type;
  payload = payload;
}

abbrev node_event : RunEventType → Text → ℕ → RunEvent
node_event type id attempt =
    event type
      (record no_data { dag_id = some (text "d"); node_id = some id; attempt = some attempt })

-- The node `b` failed twice, and `c` is running.
abbrev failed_twice : List RunEvent
failed_twice =
    event EventTypes.worker_started no_data
    ∷ node_event EventTypes.node_started (text "b") 1
    ∷ node_event EventTypes.node_failed (text "b") 1
    ∷ node_event EventTypes.node_started (text "b") 2
    ∷ node_event EventTypes.node_failed (text "b") 2
    ∷ node_event EventTypes.node_started (text "c") 1
    ∷ []

abbrev finished_once : List RunEvent
finished_once =
    node_event EventTypes.node_started (text "b") 1
    ∷ node_event EventTypes.node_succeeded (text "b") 1
    ∷ []

abbrev chat_node : DagNode
chat_node = node (text "b") Dag.llm_chat (text "a" ∷ [])

abbrev two_nodes : List DagNode
two_nodes = node (text "a") Dag.plan_dag [] ∷ chat_node ∷ []

abbrev no_progress : Progress
no_progress = record { status = []; outputs = []; results = [] }

abbrev completed_event : RunEvent
completed_event =
    event EventTypes.dag_completed (record no_data { dag_id = some (text "d"); ok = some true })

abbrev failed_event : RunEvent
failed_event =
    event EventTypes.dag_completed (record no_data { dag_id = some (text "d"); ok = some false })

abbrev later_event : RunEvent
later_event = event EventTypes.reward_computed no_data

abbrev completed_state : State ℕ
completed_state = record {
  log = failed_event ∷ completed_event ∷ later_event ∷ [];
  seen = [];
  world = 0;
}

execute_dag-Extends_example :
    Extends chat_dag []
      (execute_dag (services_of (some (text "hello"))) context chat_dag empty_state).1.log
execute_dag-Extends_example =
    execute_dag-Extends (services_of (some (text "hello"))) context chat_dag empty_state

execute_fresh-Adds_example :
    Adds chat_dag empty_state (execute_fresh (services_of none) context chat_dag [] empty_state).1
execute_fresh-Adds_example = execute_fresh-Adds (services_of none) chat_dag context [] empty_state

run_nodes-Walks_example :
    Ensures
      (Walks two_nodes no_progress)
      (run_nodes (services_of (some (text "hello"))) context chat_dag [] two_nodes no_progress)
run_nodes-Walks_example =
    run_nodes-Walks (services_of (some (text "hello"))) context chat_dag [] two_nodes no_progress

resume-IsFresh_example :
    IsFresh
      (derive_node_state chat_node failed_twice)
      (choose_attempt_for_resume (derive_node_state chat_node failed_twice))
resume-IsFresh_example = resume-IsFresh chat_node failed_twice

execute_dag_completed_example :
    execute_dag (services_of none) context chat_dag completed_state
    ≡ (ok (true, []), completed_state)
unfolding validate_dag_spec_or_throw is_type text_eq text_lt
execute_dag_completed_example =
    execute_dag_completed (services_of none) context chat_dag completed_state chat_dag
      (failed_event ∷ []) (later_event ∷ []) completed_event refl refl refl refl refl

stable_topological_order-IsOrder_example : IsOrder two_nodes two_nodes
unfolding stable_topological_order text_eq text_lt
stable_topological_order-IsOrder_example = stable_topological_order-IsOrder two_nodes two_nodes refl

drain-terminates_example :
    is_some (drain [] [] (fuel_for [] (text "a" ∷ [])) [] (text "a" ∷ []) []) ≡ true
drain-terminates_example = drain-terminates [] [] [] (text "a" ∷ []) []

classify_failed_run-dead_letter_example :
    ((classify_failed_run failed_twice).classification ≡ dead_letter) ↔ HasFailed 2 failed_twice
unfolding is_type is_policy_block
classify_failed_run-dead_letter_example = classify_failed_run-dead_letter failed_twice (record {
  not_cancelled = refl;
  not_stale = refl;
  not_late = refl;
  not_blocked = refl;
  not_invalid = refl;
})

classify_failed_run-IsConsistent_example : IsConsistent (classify_failed_run failed_twice)
classify_failed_run-IsConsistent_example = classify_failed_run-IsConsistent failed_twice

-- Every pattern matches, and captures an unquoted `yes` and a full stop.
abbrev yes_match : ReplyPattern → Text → Option Captures
yes_match p t =
    some (record { dq = none; sq = none; uq = some (text "yes"); punct = some (text ".") })

enforce_reply_constraints-IsReply_example :
    IsReply
      (λ rule. yes_match rule (Prompt.trim (text "Reply with yes.")))
      (text "I think so")
      all_rules
      (Reply.enforce_reply_constraints yes_match (text "Reply with yes.") (text "I think so"))
enforce_reply_constraints-IsReply_example =
    enforce_reply_constraints-IsReply yes_match (text "Reply with yes.") (text "I think so")

-- Every timestamp is 1000.
abbrev thousand : Text → Option ℕ
thousand ts = some 1000

is_run_timed_out_iff_example :
    (is_run_timed_out thousand failed_twice 500 2000 ≡ true)
    ↔ ((1 ≤ 500) × IsOver (get_elapsed_since_start thousand failed_twice 2000) 500)
is_run_timed_out_iff_example = is_run_timed_out_iff thousand failed_twice 500 2000

abbrev pulse : RunEvent
pulse = event EventTypes.worker_heartbeat no_data

is_heartbeat_stale-pulse_example :
    (is_heartbeat_stale thousand (failed_twice ++ pulse ∷ []) 500 1400).stale ≡ false
unfolding is_pulse
is_heartbeat_stale-pulse_example =
    is_heartbeat_stale-pulse thousand failed_twice pulse 500 1400 1000 refl refl (omega arith)

is_heartbeat_stale-other_example :
    is_heartbeat_stale thousand (failed_twice ++ completed_event ∷ []) 500 2000
    ≡ is_heartbeat_stale thousand failed_twice 500 2000
unfolding is_pulse
is_heartbeat_stale-other_example =
    is_heartbeat_stale-other thousand failed_twice completed_event 500 2000 refl

-- An empty environment, and a number that is always -1.
abbrev no_env : Text → Option Text
no_env name = none

abbrev minus_one : Text → Option ℤ
minus_one t = some (negsuc 0)

create_phase7_config-IsSafe_example :
    IsSafe (some (negsuc 0)) (create_phase7_config minus_one no_env)
create_phase7_config-IsSafe_example = create_phase7_config-IsSafe minus_one no_env

get_active_node_id-some_example :
    (any (λ e. starts (text "c") e) failed_twice ≡ true)
    × (any (λ e. finishes (text "c") e) failed_twice ≡ false)
unfolding get_active_node_id text_eq
get_active_node_id-some_example = get_active_node_id-some failed_twice (text "c") refl

get_active_node_id-none_example : is_running (text "b") finished_once ≡ false
unfolding get_active_node_id starts finishes text_eq is_type
get_active_node_id-none_example = get_active_node_id-none finished_once (text "b") refl refl

-- A node that runs its second attempt is not returned.
abbrev second_attempt : List RunEvent
second_attempt =
    node_event EventTypes.node_started (text "b") 1
    ∷ node_event EventTypes.node_failed (text "b") 1
    ∷ node_event EventTypes.node_started (text "b") 2
    ∷ []

second_attempt_missed :
    (get_active_node_id second_attempt ≡ none) × (is_running (text "b") second_attempt ≡ true)
unfolding get_active_node_id starts finishes text_eq is_type
second_attempt_missed = (refl, refl)

abbrev risky_change : PolicyEvalContext
risky_change = record {
  dag_type = text "code_change";
  node_kinds = [];
  risk_level = text "high";
  requires_code = true;
  regulated_domain = false;
}

evaluate_policy-verdict_example :
    (evaluate_policy risky_change true).verdict
    ≡ decide_verdict (is_code_change risky_change) true (is_risky risky_change)
evaluate_policy-verdict_example = evaluate_policy-verdict risky_change true

abbrev params : PlanParams
params = record {
  run_id = text "00000000-0000-0000-0000-000000000001";
  chat_id = text "00000000-0000-0000-0000-000000000002";
  message = text "hello";
}

abbrev accept : Text → Bool
accept t = true

plan_dag_for_run-IsAccepted_example :
    IsAccepted accept accept (plan_dag_for_run (text "now") params)
plan_dag_for_run-IsAccepted_example =
    plan_dag_for_run-IsAccepted accept accept (text "now") params refl refl refl

plan_code_change_dag-IsAccepted_example :
    IsAccepted accept accept (plan_code_change_dag (text "now") params)
plan_code_change_dag-IsAccepted_example =
    plan_code_change_dag-IsAccepted accept accept (text "now") params refl refl refl

All-below : (n : ℕ) (xs : List ℕ) → every (λ x. ltb x n) xs ≡ true → All (λ x. x < n) xs
All-below n [] h = tt
All-below n (x ∷ xs) h = (ground arith, All-below n xs (ground arith))

abbrev sixteen : List ℕ
sixteen =
    0 ∷ 17 ∷ 34 ∷ 51 ∷ 68 ∷ 85 ∷ 102 ∷ 119 ∷ 136 ∷ 153 ∷ 170 ∷ 187 ∷ 204 ∷ 221 ∷ 238 ∷ 255 ∷ []

parse-bytes_to_uuid_string_example : parse_uuid_to_bytes (bytes_to_uuid_string sixteen) ≡ ok sixteen
parse-bytes_to_uuid_string_example =
    parse-bytes_to_uuid_string sixteen (All-below 256 sixteen refl) refl

-- A hash that is always the same sixteen bytes.
abbrev constant_hash : List ℕ → List ℕ
constant_hash b = sixteen

constant_hash-IsDigest : (b : List ℕ) → IsDigest (constant_hash b)
constant_hash-IsDigest b = record { long = omega arith; bytes = All-below 256 sixteen refl }

abbrev zero_bytes : List ℕ
zero_bytes = 0 ∷ 0 ∷ 0 ∷ 0 ∷ 0 ∷ 0 ∷ 0 ∷ 0 ∷ 0 ∷ 0 ∷ 0 ∷ 0 ∷ 0 ∷ 0 ∷ 0 ∷ 1 ∷ []

uuid_v5-IsVersion5_example :
    (uuid : Text) × (uuid_v5 constant_hash (λ t. t) chat_dag.run_id (text "x") ≡ ok uuid)
    × (parse_uuid_to_bytes uuid ≡ ok (named_bytes constant_hash (λ t. t) zero_bytes (text "x")))
    × IsVersion5 (named_bytes constant_hash (λ t. t) zero_bytes (text "x"))
unfolding parse_uuid_to_bytes
uuid_v5-IsVersion5_example =
    uuid_v5-IsVersion5 constant_hash (λ t. t) chat_dag.run_id (text "x") zero_bytes
      constant_hash-IsDigest refl
