-- ===== src/Runs/Cancel.antt =====
-- POST /runs/:runId/cancel (apps/api/src/routes/phase7.ts).
use cognitive_runtime.Prelude.{
  ltb, leb, length, Bool, ◌&&◌, Option, none, some, List, [], ◌∷◌, Text, text,
}
use mathlib.Core.Bool.{cond}
use cognitive_runtime.Contracts.Json.{str, fields}
use cognitive_runtime.Contracts.EventTypes.{run_cancel_requested}
use cognitive_runtime.Contracts.Events.{RunEvent, EventData, no_data}
use cognitive_runtime.Executor.Effects.{
  Services, M, ◌>>=◌, ◌>>◌, pure, lift, append_new, list_by_run_id,
}
use cognitive_runtime.Runs.Routes.{validate}
use cognitive_runtime.Lifecycle.{has_terminal_event, is_run_cancelled}

pub data CancelReply : Type 0 where
  no_run already_terminal already_requested : CancelReply
  cancel_requested : (reason : Text) → CancelReply

abbrev pub cancel_data : Text → EventData
cancel_data reason = record no_data {
  rest = fields ((text "reason", str reason) ∷ (text "source", str (text "API")) ∷ []);
}

-- The default of the schema.
abbrev pub reason_of : Option Text → Text
reason_of none = text "Cancelled via API"
reason_of (some reason) = reason

module _ {W : Type 0} (services : Services W) where
  -- The two tests read the same as hasTerminalEvent and isRunCancelled.
  unfoldable pub cancel_listed : (run_id reason : Text) → List RunEvent → M W CancelReply
  unfolding has_terminal_event is_run_cancelled
  cancel_listed run_id reason [] = pure no_run
  cancel_listed run_id reason (e ∷ es) =
      cond (has_terminal_event (e ∷ es)) (pure already_terminal) (
        cond (is_run_cancelled (e ∷ es)) (pure already_requested) (do
          append_new services run_id e.chat_id run_cancel_requested (cancel_data reason)
          pure (cancel_requested reason)))

  unfoldable pub z_cancel_request : (run_id reason : Text) → Bool
  z_cancel_request run_id reason =
      services.is_uuid run_id && (ltb 0 (length reason) && leb (length reason) 1000)

  unfoldable pub cancel_run : (run_id : Text) (given : Option Text) → M W CancelReply
  unfolding z_cancel_request
  cancel_run run_id given = do
    lift (validate (z_cancel_request run_id (reason_of given)))
    events ← list_by_run_id services run_id
    cancel_listed run_id (reason_of given) events
