-- ===== src/Runs/Routes.antt =====
-- The handlers of POST /runs, POST /runs/:runId/execute and GET /runs/:runId/status. A request
-- has passed its zod schema, or the handler throws. The queue and the random UUIDs are outside.
use cognitive_runtime.Prelude.{
  Bool, ◌&&◌, true, false, Option, none, some, List, [], ◌∷◌, ◌++◌, length, Text, text,
}
use mathlib.Core.Bool.{cond}
use cognitive_runtime.Contracts.Json.{Json, str, num, fields}
use cognitive_runtime.Contracts.Dag.{RunStatus, min_one}
use cognitive_runtime.Contracts.EventTypes.{
  run_created, user_message_recorded, run_status_changed, run_enqueued,
}
use cognitive_runtime.Contracts.Events.{RunEvent, EventData, no_data}
use cognitive_runtime.Executor.Outcome.{Outcome, ok, thrown, error}
use cognitive_runtime.Executor.Effects.{
  Services, M, ◌>>=◌, ◌>>◌, pure, lift, ask, ask_or_throw, append_new, list_by_run_id,
}
use cognitive_runtime.Uuid.{uuid_v5}
use cognitive_runtime.Runs.{
  is_created, derive_run_status_from_events, get_run_created_message, get_run_created_trace_id,
  get_user_message_id,
}

pub record RunJob : Type 0 where
  pub run_id : Text
  pub trace_id : Text
  pub chat_id : Text
  pub message_id : Text
  pub message : Text

-- The queue, which answers the id of the job, and `randomUUID`.
pub record Api (W : Type 0) : Type 0 where
  pub add_job : RunJob → W → Outcome Text × W
  pub random_uuid : W → Text × W

pub record CreateRunRequest : Type 0 where
  pub chat_id : Text
  pub message : Text
  pub model : Option Text
  pub provider : Option Text
  pub execute : Bool

pub data RunReply : Type 0 where
  created_reply : (run_id trace_id chat_id : Text) → RunReply
  status_reply : (run_id : Text) → RunStatus → RunReply
  not_found missing_parts : RunReply

abbrev optional_field : Text → Option Text → List (Text × Json)
optional_field k none = []
optional_field k (some v) = (k, str v) ∷ []

abbrev pub moved : RunStatus → RunStatus → EventData
moved from to = record no_data { from_status = some from; to_status = some to }

abbrev pub enqueued_data : Text → EventData
enqueued_data job_id = record no_data {
  rest = fields ((text "queue", str (text "runs")) ∷ (text "job_id", str job_id) ∷ []);
}

abbrev pub created_data : CreateRunRequest → Text → EventData
created_data body trace_id = record no_data {
  trace_id = some trace_id;
  message = some body.message;
  rest =
      fields (
        optional_field (text "model") body.model ++ optional_field (text "provider") body.provider);
}

abbrev pub recorded_data : CreateRunRequest → Text → EventData
recorded_data body message_id = record no_data {
  message_id = some message_id;
  role = some (text "user");
  rest = fields ((text "content_len", num (length body.message)) ∷ []);
}

abbrev pub message_name : Text → Text
message_name chat_id = text "message:" ++ (chat_id ++ text ":persist_user_message:user")

abbrev pub validate : Bool → Outcome (Unit {0})
validate true = ok tt
validate false = thrown (error (text "Invalid request data"))

module _ {W : Type 0} (services : Services W) (api : Api W) where
  open services use {is_uuid, sha1, utf8}
  open api use {add_job, random_uuid}

  unfoldable pub z_create_run_request : CreateRunRequest → Bool
  z_create_run_request body = is_uuid body.chat_id && min_one body.message

  -- The move to QUEUED, the job and RUN_ENQUEUED.
  unfoldable pub enqueue : RunJob → M W (Unit {0})
  enqueue job = do
    append_new services job.run_id job.chat_id run_status_changed
        (moved RunStatus.created RunStatus.queued)
    job_id ← ask_or_throw (add_job job)
    append_new services job.run_id job.chat_id run_enqueued (enqueued_data job_id)

  unfoldable pub create_run : CreateRunRequest → M W RunReply
  unfolding z_create_run_request uuid_v5
  create_run body = do
    lift (validate (z_create_run_request body))
    run_id ← ask random_uuid
    trace_id ← ask random_uuid
    append_new services run_id body.chat_id run_created (created_data body trace_id)
    message_id ← lift (uuid_v5 sha1 utf8 run_id (message_name body.chat_id))
    append_new services run_id body.chat_id user_message_recorded (recorded_data body message_id)
    cond body.execute
        (enqueue (record {
          run_id = run_id;
          trace_id = trace_id;
          chat_id = body.chat_id;
          message_id = message_id;
          message = body.message;
        }))
        (pure tt)
    pure (created_reply run_id trace_id body.chat_id)

  -- `getRunCreatedTraceId(events) ?? randomUUID()`
  unfoldable pub trace_or_new : Option Text → M W Text
  trace_or_new none = ask random_uuid
  trace_or_new (some trace_id) = pure trace_id

  unfoldable pub enqueue_recovered :
      (run_id chat_id : Text) → Option Text → Option Text → Option Text → M W RunReply
  enqueue_recovered run_id chat_id (some message) (some message_id) trace = do
    trace_id ← trace_or_new trace
    enqueue (record {
      run_id = run_id;
      trace_id = trace_id;
      chat_id = chat_id;
      message_id = message_id;
      message = message;
    })
    pure (status_reply run_id RunStatus.queued)
  enqueue_recovered run_id chat_id _ _ trace = pure missing_parts

  unfoldable pub execute_created : Text → List RunEvent → M W RunReply
  unfolding get_run_created_message get_run_created_trace_id get_user_message_id
  execute_created run_id [] = pure not_found
  execute_created run_id (e ∷ es) =
      enqueue_recovered run_id e.chat_id (get_run_created_message (e ∷ es))
        (get_user_message_id (e ∷ es)) (get_run_created_trace_id (e ∷ es))

  unfoldable pub execute_listed : Text → List RunEvent → M W RunReply
  unfolding derive_run_status_from_events
  execute_listed run_id events =
      cond (is_created (derive_run_status_from_events events)) (execute_created run_id events)
        (pure (status_reply run_id (derive_run_status_from_events events)))

  unfoldable pub execute_run : Text → M W RunReply
  execute_run run_id = do
    lift (validate (is_uuid run_id))
    events ← list_by_run_id services run_id
    execute_listed run_id events

  unfoldable pub get_run_status : Text → M W RunReply
  unfolding derive_run_status_from_events
  get_run_status run_id = do
    lift (validate (is_uuid run_id))
    events ← list_by_run_id services run_id
    pure (status_reply run_id (derive_run_status_from_events events))
