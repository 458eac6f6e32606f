-- ===== src/Runs.antt =====
-- The runs as the API sees them (apps/api/src/routes/runs.ts): the status that the events say, and
-- what they keep for the job of the run.
pub mod Routes
pub mod Cancel
pub mod Status
pub mod Idempotent
pub mod Recovery
pub mod Cancelled
use cognitive_runtime.Prelude.{
  Bool, true, false, ◌&&◌, if◌then◌else◌, Option, none, some, get_or, is_some, List, [], ◌∷◌, any,
  Text, text, text_eq,
}
use cognitive_runtime.Contracts.Dag
use cognitive_runtime.Contracts.Dag.{RunStatus}
use cognitive_runtime.Contracts.EventTypes.{
  is_type, run_status_changed, run_enqueued, run_completed, run_created, user_message_recorded,
}
use cognitive_runtime.Contracts.Events.{RunEvent}
use cognitive_runtime.Executor.Prompt.{trim}

-- isRunStatus accepts every status but CANCELLED.
abbrev pub is_run_status : RunStatus → Bool
is_run_status RunStatus.cancelled = false
is_run_status _ = true

abbrev pub move_to : Option RunStatus → RunStatus → RunStatus
move_to none status = status
move_to (some to) status = if is_run_status to then to else status

-- The loop over the events.
unfoldable pub track : List RunEvent → RunStatus → RunStatus
unfolding is_type
track [] status = status
track (e ∷ es) status =
    track es
      (if is_type e.type run_status_changed then move_to e.payload.to_status status else status)

-- The last RUN_COMPLETED, by a scan from the end.
unfoldable pub completed_status : List RunEvent → Option RunStatus
unfolding is_type
completed_status [] = none
completed_status (e ∷ es) =
    let later = completed_status es in
    if is_some later
    then later
    else if is_type e.type run_completed
    then some (if get_or e.payload.ok false then RunStatus.succeeded else RunStatus.failed)
    else none

abbrev unmoved_status : List RunEvent → RunStatus
unfolding is_type completed_status
unmoved_status events =
    if any (λ e. is_type e.type run_enqueued) events
    then RunStatus.queued
    else get_or (completed_status events) RunStatus.created

abbrev pub is_created : RunStatus → Bool
is_created RunStatus.created = true
is_created _ = false

unfoldable pub derive_run_status_from_events : List RunEvent → RunStatus
unfolding track is_type completed_status
derive_run_status_from_events events =
    if is_created (track events RunStatus.created)
    then unmoved_status events
    else track events RunStatus.created

-- A message that is not blank, and a string that is not empty.
abbrev pub unless_blank : Text → Text → Option Text
unless_blank [] t = none
unless_blank (c ∷ s) t = some t

abbrev pub visible : Option Text → Option Text
unfolding trim
visible none = none
visible (some t) = unless_blank (trim t) t

abbrev pub unless_empty : Option Text → Option Text
unless_empty (some (c ∷ s)) = some (c ∷ s)
unless_empty _ = none

unfoldable pub get_run_created_message : List RunEvent → Option Text
unfolding is_type trim
get_run_created_message [] = none
get_run_created_message (e ∷ es) =
    let later = get_run_created_message es in
    if is_some later
    then later
    else if is_type e.type run_created
    then visible e.payload.message
    else none

unfoldable pub get_run_created_trace_id : List RunEvent → Option Text
unfolding is_type
get_run_created_trace_id [] = none
get_run_created_trace_id (e ∷ es) =
    let later = get_run_created_trace_id es in
    if is_some later
    then later
    else if is_type e.type run_created
    then unless_empty e.payload.trace_id
    else none

abbrev is_user : Option Text → Bool
unfolding text_eq
is_user none = false
is_user (some role) = text_eq role (text "user")

-- The id that one event gives.
abbrev message_id_of : RunEvent → Option Text
unfolding is_type text_eq
message_id_of e =
    if is_type e.type user_message_recorded && is_user e.payload.role
    then unless_empty e.payload.message_id
    else none

unfoldable pub get_user_message_id : List RunEvent → Option Text
unfolding is_type text_eq
get_user_message_id [] = none
get_user_message_id (e ∷ es) =
    let rest = get_user_message_id es in if is_some (message_id_of e) then message_id_of e else rest
