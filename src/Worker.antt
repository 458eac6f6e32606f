-- ===== src/Worker.antt =====
-- The worker's event keys and checks (apps/worker/src/index.ts). The children hold the handler of
-- the queue's jobs, with the block that computes the reward, and what a job leaves behind.
pub mod Reward
pub mod Job
pub mod Ends
pub mod Keys
pub mod Quiet
pub mod Walk
pub mod Once
pub mod Repeat
pub mod Stopped
use cognitive_runtime.Prelude.{
  Bool, true, false, if◌then◌else◌, Option, none, some, get_or, is_some, List, [], ◌∷◌, ◌++◌, Text,
  text,
}
use cognitive_runtime.Contracts.Dag.{RunStatus}
use cognitive_runtime.Contracts.EventTypes.{
  RunEventType, is_type, type_name, run_completed, run_cancelled, worker_started,
  run_status_changed,
}
use cognitive_runtime.Contracts.Events.{EventData, RunEvent}

-- The string that the status is.
abbrev pub status_name : RunStatus → Text
status_name RunStatus.created = text "CREATED"
status_name RunStatus.queued = text "QUEUED"
status_name RunStatus.running = text "RUNNING"
status_name RunStatus.succeeded = text "SUCCEEDED"
status_name RunStatus.failed = text "FAILED"
status_name RunStatus.cancelled = text "CANCELLED"

-- `String(status ?? '')`
abbrev pub status_text : Option RunStatus → Text
status_text none = []
status_text (some status) = status_name status

unfoldable pub key_for_new_event : RunEventType → EventData → Text
unfolding is_type type_name
key_for_new_event type payload =
    if is_type type run_completed
    then text "RUN_COMPLETED"
    else if is_type type run_cancelled
    then text "RUN_CANCELLED"
    else if is_type type worker_started
    then text "WORKER_STARTED"
    else if is_type type run_status_changed
    then text "RUN_STATUS_CHANGED:"
      ++ (status_text payload.from_status ++ (text ":" ++ status_text payload.to_status))
    else text "TYPE:" ++ type_name type

unfoldable pub key_for_run_event : RunEvent → Text
unfolding is_type type_name
key_for_run_event e =
    if is_type e.type run_completed
    then text "RUN_COMPLETED"
    else if is_type e.type run_cancelled
    then text "RUN_CANCELLED"
    else if is_type e.type worker_started
    then text "WORKER_STARTED"
    else if is_type e.type run_status_changed
    then text "RUN_STATUS_CHANGED:"
      ++ (status_text e.payload.from_status ++ (text ":" ++ status_text e.payload.to_status))
    else text "TYPE:" ++ type_name e.type

-- The scan from the end, which `none` ends without an answer.
unfoldable pub get_run_completed_ok : List RunEvent → Option Bool
unfolding is_type
get_run_completed_ok [] = none
get_run_completed_ok (e ∷ es) =
    let later = get_run_completed_ok es in
    if is_some later
    then later
    else if is_type e.type run_completed
    then some (get_or e.payload.ok false)
    else if is_type e.type run_cancelled
    then some false
    else none
