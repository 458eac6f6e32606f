-- ===== src/Lifecycle/Classify.antt =====
-- classifyFailedRun of lifecycle.ts.
use cognitive_runtime.Prelude.{
  ℕ, ◌+◌, leb, max, Bool, true, false, ◌&&◌, ◌||◌, if◌then◌else◌, Option, none, some, get_or, List,
  [], ◌∷◌, ◌++◌, any, find, Text, text, decimal, is_some,
}
use cognitive_runtime.Prelude.Maps.{get, set}
use cognitive_runtime.Contracts.EventTypes.{
  is_type, run_cancel_requested, run_cancelled, run_stale_detected, run_timeout_reached,
  policy_evaluated, validation_error, node_failed, runtime_error,
}
use cognitive_runtime.Contracts.Events.{
  RunEvent, FailedRunClass, transient, permanent, dead_letter, cancelled, stale, PolicyVerdict,
}

pub record RunFailure : Type 0 where
  pub classification : FailedRunClass
  pub reason : Text
  pub retriable : Bool

abbrev is_blocked : Option PolicyVerdict → Bool
is_blocked (some PolicyVerdict.blocked) = true
is_blocked _ = false

unfoldable pub is_policy_block : RunEvent → Bool
unfolding is_type
is_policy_block e = is_type e.type policy_evaluated && is_blocked e.payload.verdict

-- `data?.node_id ?? ''`
abbrev pub node_key : RunEvent → Text
node_key e = get_or e.payload.node_id []

-- The loop that fills `nodeFailCounts`.
unfoldable pub count_failures : List (Text × ℕ) → List RunEvent → List (Text × ℕ)
unfolding is_type get set
count_failures m [] = m
count_failures m (e ∷ es) =
    count_failures
      (if is_type e.type node_failed
        then set (node_key e) (get_or (get (node_key e) m) 0 + 1) m
        else m)
      es

-- `Math.max(0, ...m.values())`
unfoldable pub max_value : List (Text × ℕ) → ℕ
max_value [] = 0
max_value ((k, v) ∷ m) = max v (max_value m)

abbrev error_code_of : Option RunEvent → Text
error_code_of none = text "UNKNOWN"
error_code_of (some e) = get_or e.payload.code (text "UNKNOWN")

-- The checks behind the one for failed validation.
unfoldable pub classify_errors : List RunEvent → RunFailure
unfolding is_type count_failures max_value decimal
classify_errors events =
    let max_fails = max_value (count_failures [] events) in
    if leb 2 max_fails
    then record {
      classification = dead_letter;
      reason =
          text "Node retries exhausted (max "
          ++ (decimal max_fails ++ text " failures on single node).");
      retriable = false;
    }
    else if any (λ e. is_type e.type runtime_error) events
    then record {
      classification = transient;
      reason =
          text "Runtime error: " ++ error_code_of (find (λ e. is_type e.type runtime_error) events);
      retriable = true;
    }
    else record {
      classification = transient;
      reason = text "Run failed for unknown reason.";
      retriable = true;
    }

unfoldable pub classify_failed_run : List RunEvent → RunFailure
unfolding is_type is_policy_block classify_errors
classify_failed_run events =
    if any (λ e. is_type e.type run_cancelled || is_type e.type run_cancel_requested) events
    then record {
      classification = cancelled;
      reason = text "Run was cancelled by user or system.";
      retriable = false;
    }
    else if any (λ e. is_type e.type run_stale_detected) events
    then record {
      classification = stale;
      reason = text "Worker heartbeat expired; worker may have died.";
      retriable = true;
    }
    else if any (λ e. is_type e.type run_timeout_reached) events
    then record {
      classification = transient;
      reason = text "Run exceeded configured timeout.";
      retriable = true;
    }
    else if is_some (find is_policy_block events)
    then record {
      classification = permanent;
      reason = text "Run blocked by policy gate.";
      retriable = false;
    }
    else if any (λ e. is_type e.type validation_error) events
    then record {
      classification = permanent;
      reason = text "Schema validation failed.";
      retriable = false;
    }
    else classify_errors events
