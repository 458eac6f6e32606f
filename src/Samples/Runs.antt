-- ===== src/Samples/Runs.antt =====
-- The theorems on the API's runs, at a run that has been created and not executed.
use cognitive_runtime.Prelude.{
  ℕ, ◌+◌, ◌≡◌, refl, false, none, some, List, [], ◌∷◌, ◌++◌, Text, text, text_eq,
}
use cognitive_runtime.Contracts.Dag.{RunStatus}
use cognitive_runtime.Contracts.EventTypes
use cognitive_runtime.Contracts.EventTypes.{RunEventType, is_type}
use cognitive_runtime.Contracts.Events.{RunEvent, EventData, no_data}
use cognitive_runtime.Executor.Outcome.{ok}
use cognitive_runtime.Executor.Effects.{
  State, and_then, ask_or_throw, ask, append, append_new, list_by_run_id,
}
use cognitive_runtime.Executor.Prompt.{trim}
use cognitive_runtime.Executor.Tests.{services_of, chat_dag, empty_state}
use cognitive_runtime.Runs.{
  track, completed_status, derive_run_status_from_events, get_run_created_message,
  get_run_created_trace_id, get_user_message_id,
}
use cognitive_runtime.Runs.Status.{derive-changed}
use cognitive_runtime.Runs.Idempotent.{execute_run-twice}
use cognitive_runtime.Executor.Appended.{of_run}
use cognitive_runtime.Executor.Returns.{Returns}
use cognitive_runtime.Lifecycle.{has_terminal_event, is_run_cancelled}
use cognitive_runtime.Runs.Recovery.{job_of_request, create_run-recovered}
use cognitive_runtime.Uuid.{uuid_v5, parse_uuid_to_bytes, clean, from_hex}
use cognitive_runtime.Runs.Cancel.{z_cancel_request, cancel_requested, cancel_listed, cancel_run}
use cognitive_runtime.Runs.Cancelled.{IsStopped, cancel_run-twice}
use cognitive_runtime.Runs.Routes.{
  CreateRunRequest, create_run, z_create_run_request, message_name, Api, status_reply, moved,
  enqueue, trace_or_new, enqueue_recovered, execute_created, execute_listed, execute_run,
}

abbrev event : RunEventType → EventData → RunEvent
event type payload = record {
  ts = text "1000";
  run_id = chat_dag.run_id;
  chat_id = text "c";
  type = type;
  payload = payload;
}

abbrev created : List RunEvent
created =
    event EventTypes.run_created
      (record no_data { trace_id = some (text "t"); message = some (text "hi") })
    ∷ event EventTypes.user_message_recorded
        (record no_data { message_id = some (text "m"); role = some (text "user") })
    ∷ []

abbrev api : Api ℕ
api = record { add_job = λ job w. (ok (text "1"), w + 1); random_uuid = λ w. (text "u", w + 1) }

abbrev before : State ℕ
before = record { log = created; seen = []; world = 0 }

derive-changed_example :
    derive_run_status_from_events (
      created
      ++ event EventTypes.run_status_changed (moved RunStatus.created RunStatus.queued)
        ∷ event EventTypes.run_enqueued no_data
        ∷ [])
    ≡ RunStatus.queued
unfolding is_type
derive-changed_example =
    derive-changed created
      (event EventTypes.run_status_changed (moved RunStatus.created RunStatus.queued))
      RunStatus.queued (event EventTypes.run_enqueued no_data ∷ []) refl refl refl refl refl

execute_run-twice_example :
    execute_run
      (services_of none)
      api
      chat_dag.run_id
      (execute_run (services_of none) api chat_dag.run_id before).1
    ≡ (
      ok (status_reply chat_dag.run_id RunStatus.queued),
      (execute_run (services_of none) api chat_dag.run_id before).1,
    )
unfolding execute_run execute_listed execute_created enqueue_recovered trace_or_new enqueue and_then
    ask_or_throw ask append append_new list_by_run_id trim track completed_status
    derive_run_status_from_events get_run_created_message get_run_created_trace_id
    get_user_message_id is_type text_eq
execute_run-twice_example =
    execute_run-twice (services_of none) api chat_dag.run_id before
      (execute_run (services_of none) api chat_dag.run_id before).1
      (status_reply chat_dag.run_id RunStatus.queued) refl refl

abbrev request : CreateRunRequest
request = record {
  chat_id = text "c";
  message = text "hi";
  model = none;
  provider = none;
  execute = false;
}

-- The run id is that of a run with no events.
abbrev uuid_api : Api ℕ
uuid_api = record {
  add_job = λ job w. (ok (text "1"), w + 1);
  random_uuid = λ w. (chat_dag.run_id, w + 1);
}

abbrev requested : State ℕ
requested = (create_run (services_of none) uuid_api request empty_state).1

create_run-recovered_example :
    (message_id : Text) × (uuid_v5
        (services_of none).sha1
        (services_of none).utf8
        chat_dag.run_id
        (message_name (text "c"))
      ≡ ok message_id)
    × (execute_run (services_of none) uuid_api chat_dag.run_id (record requested { world = 9 })
        ≡ and_then
            (enqueue
              (services_of none)
              uuid_api
              (job_of_request
                (services_of none)
                uuid_api
                request
                chat_dag.run_id
                chat_dag.run_id
                message_id)
              (record requested { world = 9 }))
            (λ _ v. (ok (status_reply chat_dag.run_id RunStatus.queued), v)))
unfolding create_run z_create_run_request uuid_v5 parse_uuid_to_bytes clean from_hex and_then ask
    append_new append trim text_eq
create_run-recovered_example =
    create_run-recovered (services_of none) uuid_api request empty_state requested
      (record requested { world = 9 }) chat_dag.run_id chat_dag.run_id (text "c") refl refl refl
      refl refl refl refl refl

cancel_run-twice_example :
    IsStopped (
      of_run chat_dag.run_id
        (cancel_run (services_of none) chat_dag.run_id (some (text "late")) before).1.log)
    × Returns
        (λ _ u. u ≡ (cancel_run (services_of none) chat_dag.run_id (some (text "late")) before).1)
        (cancel_run
          (services_of none)
          chat_dag.run_id
          (some (text "late"))
          (cancel_run (services_of none) chat_dag.run_id (some (text "late")) before).1)
unfolding z_cancel_request cancel_run cancel_listed and_then ask append append_new list_by_run_id
    has_terminal_event is_run_cancelled is_type text_eq
cancel_run-twice_example =
    cancel_run-twice (services_of none) chat_dag.run_id (some (text "late")) before
      (cancel_run (services_of none) chat_dag.run_id (some (text "late")) before).1
      (cancel_requested (text "late")) refl refl
