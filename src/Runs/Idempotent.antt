-- ===== src/Runs/Idempotent.antt =====
-- Executing a run and cancelling it are idempotent.
use cognitive_runtime.Prelude.{
  ◌≡◌, refl, ap, ◌∙◌, true, Bool-cases, ◌⊎◌, inl, inr, Option, Option-cases, none, some, List, [],
  ◌∷◌, ◌++◌, append_assoc, Text,
}
use mathlib.Core.Path.{subst}
use cognitive_runtime.Contracts.Dag.{RunStatus}
use cognitive_runtime.Contracts.EventTypes.{is_type, run_status_changed, run_enqueued}
use cognitive_runtime.Contracts.Events.{RunEvent, create_run_event}
use cognitive_runtime.Executor.Outcome.{Outcome, ok, thrown}
use cognitive_runtime.Executor.Effects.{
  Services, State, and_then, append_new, list_by_run_id, ask_or_throw, ask,
}
use cognitive_runtime.Executor.Appended.{
  of_run, of_run-append, Appended, append_new-cases, list_by_run_id-ok,
}
use cognitive_runtime.Executor.Returns.{thrown_ok}
use cognitive_runtime.Runs.{is_created, derive_run_status_from_events}
use cognitive_runtime.Runs.Status.{derive-changed}
use cognitive_runtime.Runs.Routes.{
  Api, RunJob, RunReply, enqueued_data, status_reply, moved, enqueue, trace_or_new,
  enqueue_recovered, execute_created, execute_listed, execute_run,
}

module _ {W : Type 0} (services : Services W) (api : Api W) where
  pub execute_run-listed :
      (run_id : Text) (s : State W)
      → services.is_uuid run_id ≡ true
      → services.list_fails run_id s.world ≡ none
      → execute_run services api run_id s
        ≡ execute_listed services api run_id (of_run run_id s.log) s
  unfolding execute_run and_then
  execute_run-listed run_id s valid h = rw (valid, list_by_run_id-ok services run_id s h) refl

  request_valid :
      (run_id : Text) (s t : State W) (r : RunReply)
      → execute_run services api run_id s ≡ (ok r, t)
      → services.is_uuid run_id ≡ true
  unfolding execute_run and_then
  request_valid run_id s t r first = elim (Bool-cases (services.is_uuid run_id)) [
    | inl valid ↦ valid
    | inr invalid ↦ absurd (thrown_ok _ s r t (rw invalid at first))
  ]

  -- The run is queued in the log of the state.
  abbrev IsQueued : Text → State W → Type 0
  IsQueued run_id t = derive_run_status_from_events (of_run run_id t.log) ≡ RunStatus.queued

  abbrev AfterEnqueue : RunJob → Outcome (Unit {0}) × State W → Type 0
  AfterEnqueue job (ok u, t) = IsQueued job.run_id t
  AfterEnqueue job (thrown e, t) = Unit

  -- The two events of an enqueued job, in the log.
  enqueued-IsQueued :
      (job : RunJob) (job_id : Text) (s : State W)
      (changed : Appended services job.run_id job.chat_id run_status_changed
        (moved RunStatus.created RunStatus.queued)
        s)
      (w : W)
      → AfterEnqueue job (
          append_new services job.run_id job.chat_id run_enqueued
            (enqueued_data job_id)
            (record changed.state { world = w }))
  unfolding is_type
  enqueued-IsQueued job job_id s changed w =
      elim (append_new-cases services job.run_id job.chat_id run_enqueued (enqueued_data job_id)
        (record changed.state { world = w })) [
          | inl refused ↦ rw refused.result tt
          | inr enqueued ↦ rw enqueued.result (
              ap (λ log. derive_run_status_from_events (of_run job.run_id log)) (both enqueued)
              ∙ ap derive_run_status_from_events (own enqueued)
              ∙ derive-changed (of_run job.run_id s.log) (first) RunStatus.queued
                  (second enqueued ∷ []) refl refl refl refl refl)
        ]
    where
      first : RunEvent
      first =
          create_run_event changed.ts job.run_id job.chat_id run_status_changed
            (moved RunStatus.created RunStatus.queued)

      second :
          Appended services job.run_id job.chat_id run_enqueued
            (enqueued_data job_id)
            (record changed.state { world = w })
          → RunEvent
      second enqueued =
          create_run_event enqueued.ts job.run_id job.chat_id run_enqueued (enqueued_data job_id)

      both :
          (enqueued : Appended services job.run_id job.chat_id run_enqueued
            (enqueued_data job_id)
            (record changed.state { world = w }))
          → enqueued.state.log ≡ (s.log ++ first ∷ []) ++ second enqueued ∷ []
      both enqueued = rw enqueued.log (rw changed.log refl)

      own :
          (enqueued : Appended services job.run_id job.chat_id run_enqueued
            (enqueued_data job_id)
            (record changed.state { world = w }))
          → of_run job.run_id ((s.log ++ first ∷ []) ++ second enqueued ∷ [])
            ≡ of_run job.run_id s.log ++ first ∷ second enqueued ∷ []
      own enqueued =
          of_run-append job.run_id (s.log ++ first ∷ []) (second enqueued) refl
          ∙ rw (of_run-append job.run_id s.log first refl)
              (append_assoc (of_run job.run_id s.log) (first ∷ []) (second enqueued ∷ []))

  enqueue-IsQueued : (job : RunJob) (s : State W) → AfterEnqueue job (enqueue services api job s)
  unfolding enqueue and_then ask_or_throw
  enqueue-IsQueued job s =
      elim (append_new-cases services job.run_id job.chat_id run_status_changed
        (moved RunStatus.created RunStatus.queued) s) [
          | inl refused ↦ rw refused.result tt
          | inr changed ↦ rw changed.result (added changed (api.add_job job changed.state.world))
        ]
    where
      added :
          (changed : Appended services job.run_id job.chat_id run_status_changed
            (moved RunStatus.created RunStatus.queued)
            s)
          (answer : Outcome Text × W)
          → AfterEnqueue job (
              and_then
                (answer.0, record changed.state { world = answer.1 })
                (λ job_id.
                  append_new services job.run_id job.chat_id run_enqueued (enqueued_data job_id)))
      added changed (ok job_id, w) = enqueued-IsQueued job job_id s changed w
      added changed (thrown e, w) = tt

  -- A call that returns has left the run queued or the state as it was.
  abbrev IsSettled : Text → State W → Outcome RunReply × State W → Type 0
  IsSettled run_id s (ok r, t) =
      (t ≡ s) ⊎ IsQueued run_id t × r ≡ status_reply run_id RunStatus.queued
  IsSettled run_id s (thrown e, t) = Unit

  queue-IsSettled :
      (job : RunJob) (s0 : State W) (answer : Outcome (Unit {0}) × State W)
      → AfterEnqueue job answer
      → IsSettled job.run_id s0
          (and_then answer (λ _ t. (ok (status_reply job.run_id RunStatus.queued), t)))
  unfolding and_then
  queue-IsSettled job s0 (ok u, t) queued = inr (queued, refl)
  queue-IsSettled job s0 (thrown e, t) _ = tt

  abbrev job_of : (run_id chat_id message message_id trace_id : Text) → RunJob
  job_of run_id chat_id message message_id trace_id = record {
    run_id = run_id;
    trace_id = trace_id;
    chat_id = chat_id;
    message_id = message_id;
    message = message;
  }

  enqueue_recovered-IsSettled :
      (run_id chat_id : Text) (message message_id trace : Option Text) (s : State W)
      → IsSettled run_id s
          (enqueue_recovered services api run_id chat_id message message_id trace s)
  unfolding enqueue_recovered trace_or_new and_then ask
  enqueue_recovered-IsSettled run_id chat_id none message_id trace s = inl refl
  enqueue_recovered-IsSettled run_id chat_id (some message) none trace s = inl refl
  enqueue_recovered-IsSettled run_id chat_id (some message) (some message_id) none s =
      queue-IsSettled (job_of run_id chat_id message message_id (api.random_uuid s.world).0) s _
        (enqueue-IsQueued _ _)
  enqueue_recovered-IsSettled run_id chat_id (some message) (some message_id) (some trace) s =
      queue-IsSettled (job_of run_id chat_id message message_id trace) s _ (enqueue-IsQueued _ _)

  execute_listed-IsSettled :
      (run_id : Text) (events : List RunEvent) (s : State W)
      → IsSettled run_id s (execute_listed services api run_id events s)
  unfolding execute_listed execute_created
  execute_listed-IsSettled run_id events s =
      elim (Bool-cases (is_created (derive_run_status_from_events events))) [
        | inl created ↦ rw created (execute_created-IsSettled events)
        | inr other ↦ rw other (inl refl)
      ]
    where
      execute_created-IsSettled :
          (es : List RunEvent) → IsSettled run_id s (execute_created services api run_id es s)
      execute_created-IsSettled [] = inl refl
      execute_created-IsSettled (e ∷ es) = enqueue_recovered-IsSettled run_id e.chat_id _ _ _ s

  execute_run-IsSettled :
      (run_id : Text) (s : State W) → IsSettled run_id s (execute_run services api run_id s)
  unfolding execute_run and_then list_by_run_id
  execute_run-IsSettled run_id s = elim (Bool-cases (services.is_uuid run_id)) [
    | inr invalid ↦ rw invalid tt
    | inl valid ↦ elim (Option-cases (services.list_fails run_id s.world)) [
      | inl readable ↦
          rw (valid, readable) (execute_listed-IsSettled run_id (of_run run_id s.log) s)
      | inr (e, failed) ↦ rw (valid, failed) tt
    ]
  ]

  -- A request to execute a run that has returned is repeated at will: while the log can be read,
  -- a second request has the reply of the first one and changes nothing, no event and no job.
  pub execute_run-twice :
      (run_id : Text) (s t : State W) (r : RunReply)
      → execute_run services api run_id s ≡ (ok r, t)
      → services.list_fails run_id t.world ≡ none
      → execute_run services api run_id t ≡ (ok r, t)
  unfolding execute_listed
  execute_run-twice run_id s t r first readable =
      elim (subst (IsSettled run_id s) first (execute_run-IsSettled run_id s)) [
        | inl same ↦ ap (execute_run services api run_id) same ∙ first
        | inr (queued, reply) ↦
            execute_run-listed run_id t (request_valid run_id s t r first) readable
            ∙ rw (queued, reply) refl
      ]
