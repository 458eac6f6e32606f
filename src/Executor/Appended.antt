-- ===== src/Executor/Appended.antt =====
-- What one call of `append` leaves: the event at the end of the log, or an error.
use cognitive_runtime.Prelude.{
  ◌≡◌, refl, ◌∙◌, ◌⊎◌, inl, inr, none, Option-cases, List, [], ◌∷◌, ◌++◌, keep, keep-append, Text,
  text_eq, text_eq_refl,
}
use cognitive_runtime.Contracts.EventTypes.{RunEventType}
use cognitive_runtime.Contracts.Events.{RunEvent, EventData, create_run_event}
use cognitive_runtime.Executor.Outcome.{ok, thrown, Thrown}
use cognitive_runtime.Executor.Effects.{
  Services, State, append_new, append, and_then, ask, list_by_run_id,
}

-- The events of a run, as listByRunId returns them.
abbrev pub of_run : Text → List RunEvent → List RunEvent
of_run run_id log = keep (λ e. text_eq e.run_id run_id) log

pub of_run-append :
    (run_id : Text) (log : List RunEvent) (e : RunEvent)
    → e.run_id ≡ run_id
    → of_run run_id (log ++ e ∷ []) ≡ of_run run_id log ++ e ∷ []
of_run-append run_id log e same =
    keep-append (λ f. text_eq f.run_id run_id) log (e ∷ []) ∙ rw (same, text_eq_refl run_id) refl

module _ {W : Type 0} (services : Services W) where
  -- The state behind a call that has stored the event.
  pub record Appended (run_id chat_id : Text) (type : RunEventType) (d : EventData) (s : State W)
      : Type 0 where
    pub state : State W
    pub ts : Text
    pub result : append_new services run_id chat_id type d s ≡ (ok tt, state)
    pub log : state.log ≡ s.log ++ create_run_event ts run_id chat_id type d ∷ []
    pub seen : state.seen ≡ s.seen

  -- The state behind a call that was refused.
  pub record Refused (run_id chat_id : Text) (type : RunEventType) (d : EventData) (s : State W)
      : Type 0 where
    pub state : State W
    pub reason : Thrown
    pub result : append_new services run_id chat_id type d s ≡ (thrown reason, state)
    pub log : state.log ≡ s.log

  pub append_new-cases :
      (run_id chat_id : Text) (type : RunEventType) (d : EventData) (s : State W)
      → Refused run_id chat_id type d s ⊎ Appended run_id chat_id type d s
  unfolding append_new append and_then ask
  append_new-cases run_id chat_id type d s =
      elim (Option-cases (
        services.rejects (create_run_event (services.iso_now s.world).0 run_id chat_id type d)
          (services.iso_now s.world).1)) [
            | inl accepted ↦ inr (record {
              state = record s {
                world = (services.iso_now s.world).1;
                log =
                    s.log
                    ++ create_run_event (services.iso_now s.world).0 run_id chat_id type d ∷ [];
              };
              ts = (services.iso_now s.world).0;
              result = rw accepted refl;
              log = refl;
              seen = refl;
            })
            | inr (e, refused) ↦ inl (record {
              state = record s { world = (services.iso_now s.world).1 };
              reason = e;
              result = rw refused refl;
              log = refl;
            })
          ]

  pub list_by_run_id-ok :
      (run_id : Text) (s : State W)
      → services.list_fails run_id s.world ≡ none
      → list_by_run_id services run_id s ≡ (ok (of_run run_id s.log), s)
  unfolding list_by_run_id
  list_by_run_id-ok run_id s h = rw h refl
