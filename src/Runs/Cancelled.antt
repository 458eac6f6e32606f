-- ===== src/Runs/Cancelled.antt =====
-- What a request to cancel a run leaves behind.
use cognitive_runtime.Prelude.{
  ◌≡◌, refl, sym, ap, ◌∙◌, true, false, Bool-cases, ◌⊎◌, inl, inr, Option, Option-cases, none, List,
  [], ◌∷◌, any, any-append, Text, arith,
}
use mathlib.Core.Path.{subst}
use cognitive_runtime.Contracts.EventTypes.{is_type, run_cancel_requested}
use cognitive_runtime.Contracts.Events.{RunEvent, create_run_event}
use cognitive_runtime.Executor.Outcome.{Outcome, ok, thrown}
use cognitive_runtime.Executor.Effects.{Services, State, and_then, list_by_run_id, append_new, pure}
use cognitive_runtime.Executor.Appended.{of_run, of_run-append, append_new-cases, list_by_run_id-ok}
use cognitive_runtime.Executor.Returns.{Returns, pure-Returns, thrown_ok}
use cognitive_runtime.Lifecycle.{has_terminal_event, is_run_cancelled}
use cognitive_runtime.Runs.Cancel.{
  CancelReply, reason_of, z_cancel_request, cancel_requested, cancel_data, cancel_listed,
  cancel_run,
}

-- The run has no events, or a terminal one, or a request to cancel it.
abbrev pub IsStopped : List RunEvent → Type 0
IsStopped events =
    (events ≡ []) ⊎ (has_terminal_event events ≡ true) ⊎ (is_run_cancelled events ≡ true)

module _ {W : Type 0} (services : Services W) (run_id reason : Text) where
  abbrev pub Stops : Outcome CancelReply × State W → Type 0
  Stops (ok r, t) = IsStopped (of_run run_id t.log)
  Stops (thrown e, t) = Unit

  request-Stops :
      (chat_id : Text) (s : State W)
      → Stops (
          and_then
            (append_new services run_id chat_id run_cancel_requested (cancel_data reason) s)
            (λ _. pure (cancel_requested reason)))
  unfolding and_then is_run_cancelled is_type
  request-Stops chat_id s =
      elim (append_new-cases services run_id chat_id run_cancel_requested (cancel_data reason) s) [
        | inl refused ↦ rw refused.result tt
        | inr appended ↦ rw appended.result (
            inr (
              inr (
                ap (λ log. any (λ e. is_type e.type run_cancel_requested) (of_run run_id log))
                  appended.log
                ∙ ap (any (λ e. is_type e.type run_cancel_requested)) (
                    of_run-append run_id s.log
                      (create_run_event appended.ts run_id chat_id run_cancel_requested
                        (cancel_data reason))
                      refl)
                ∙ any-append (λ e. is_type e.type run_cancel_requested) (of_run run_id s.log) _
                ∙ ground arith)))
      ]

  cancel_listed-Stops :
      (events : List RunEvent) (s : State W)
      → of_run run_id s.log ≡ events
      → Stops (cancel_listed services run_id reason events s)
  unfolding cancel_listed
  cancel_listed-Stops [] s own = inl own
  cancel_listed-Stops (e ∷ es) s own = elim (Bool-cases (has_terminal_event (e ∷ es))) [
    | inl ended ↦ rw ended (inr (inl (ap has_terminal_event own ∙ ended)))
    | inr running ↦ elim (Bool-cases (is_run_cancelled (e ∷ es))) [
      | inl requested ↦ rw (running, requested) (inr (inr (ap is_run_cancelled own ∙ requested)))
      | inr wanted ↦ rw (running, wanted) (request-Stops e.chat_id s)
    ]
  ]

  stopped-keeps :
      (events : List RunEvent) (t : State W)
      → IsStopped events
      → Returns (λ _ u. u ≡ t) (cancel_listed services run_id reason events t)
  unfolding cancel_listed
  stopped-keeps [] t stopped = pure-Returns _ _ t refl
  stopped-keeps (e ∷ es) t stopped = elim (Bool-cases (has_terminal_event (e ∷ es))) [
    | inl ended ↦ rw ended (pure-Returns _ _ t refl)
    | inr running ↦ elim stopped [
      | inl empty ↦ cc
      | inr (inl ended) ↦ absurd (true_false (sym ended ∙ running))
      | inr (inr requested) ↦ rw (running, requested) (pure-Returns _ _ t refl)
    ]
  ]
    where
      true_false : true ≡ false → ⊥
      true_false e = cc

module _ {W : Type 0} (services : Services W) (run_id : Text) (given : Option Text) where
  cancel_run-listed :
      (s : State W)
      → z_cancel_request services run_id (reason_of given) ≡ true
      → services.list_fails run_id s.world ≡ none
      → cancel_run services run_id given s
        ≡ cancel_listed services run_id (reason_of given) (of_run run_id s.log) s
  unfolding cancel_run and_then
  cancel_run-listed s valid readable = rw (valid, list_by_run_id-ok services run_id s readable) refl

  cancel_run-Stops :
      (s : State W) → Stops services run_id (reason_of given) (cancel_run services run_id given s)
  unfolding cancel_run and_then list_by_run_id
  cancel_run-Stops s = elim (Bool-cases (z_cancel_request services run_id (reason_of given))) [
    | inr invalid ↦ rw invalid tt
    | inl valid ↦ elim (Option-cases (services.list_fails run_id s.world)) [
      | inl listed ↦
          rw (valid, listed)
            (cancel_listed-Stops services run_id (reason_of given) (of_run run_id s.log) s refl)
      | inr (e, failed) ↦ rw (valid, failed) tt
    ]
  ]

  request_valid :
      (s t : State W) (r : CancelReply)
      → cancel_run services run_id given s ≡ (ok r, t)
      → z_cancel_request services run_id (reason_of given) ≡ true
  unfolding cancel_run and_then
  request_valid s t r first =
      elim (Bool-cases (z_cancel_request services run_id (reason_of given))) [
        | inl valid ↦ valid
        | inr invalid ↦ absurd (thrown_ok _ s r t (rw invalid at first))
      ]

  -- Behind a request to cancel that has returned, a run with events has a terminal event or the
  -- request to cancel it; and while the log can be read, a second request returns and changes
  -- nothing.
  pub cancel_run-twice :
      (s t : State W) (r : CancelReply)
      → cancel_run services run_id given s ≡ (ok r, t)
      → services.list_fails run_id t.world ≡ none
      → IsStopped (of_run run_id t.log)
        × Returns (λ _ u. u ≡ t) (cancel_run services run_id given t)
  cancel_run-twice s t r first readable =
      let stopped = subst (Stops services run_id (reason_of given)) first (cancel_run-Stops s) in
      (
        stopped,
        rw (cancel_run-listed t (request_valid s t r first) readable)
            (stopped-keeps services run_id (reason_of given) (of_run run_id t.log) t stopped),
      )
