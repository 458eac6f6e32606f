-- ===== src/Worker/Ends.antt =====
-- A job always comes to an end: where the store takes the events that it has to, the handler
-- returns and the run is over, but for a cancelled run with no active node.
use cognitive_runtime.Prelude.{
  ◌≡◌, refl, sym, ap, ◌∙◌, Bool, true, false, not, ◌&&◌, &&_parts, ◌||◌, ◌⊎◌, inl, inr,
  Option-cases, none, some, Option, is_some, List, [], ◌∷◌, ◌++◌, any, any-append, Text, text,
  text_eq, arith,
}
use cognitive_runtime.Prelude.Maps.{has_text}
use cognitive_runtime.Contracts.EventTypes.{
  RunEventType, is_type, run_status_changed, worker_started, run_completed, run_cancelled,
  runtime_error,
}
use cognitive_runtime.Contracts.Json.{Json}
use cognitive_runtime.Contracts.Dag.{RunStatus}
use cognitive_runtime.Contracts.Events.{RunEvent, EventData, create_run_event}
use cognitive_runtime.Executor.Outcome.{Outcome, thrown, Thrown}
use cognitive_runtime.Executor.Effects.{
  Services, State, M, pure, and_then, ask, append, append_new, list_by_run_id,
}
use mathlib.Core.Bool.{cond}
use cognitive_runtime.Executor.Appended.{of_run, of_run-append, Refused, append_new-cases}
use cognitive_runtime.Executor.Returns.{
  Returns, pure-Returns, and_then-Returns, caught-Returns, cond-Returns, map-Returns,
}
use cognitive_runtime.Lifecycle.{has_terminal_event, is_run_cancelled}
use cognitive_runtime.Lifecycle.Active.{get_active_node_id}
use cognitive_runtime.Runs.Routes.{RunJob, moved}
use cognitive_runtime.Worker.{key_for_new_event, get_run_completed_ok}
use cognitive_runtime.Worker.Keys.{completed_key, get_run_completed_ok-terminal, seen_of-fresh}
use cognitive_runtime.Worker.Job.{
  Runtime, cancelled_data, completed_data, seen_of, arrive, list_events, append_once, z_run_job,
  attempt_run, error_message, error_data, failed_data, started_data, report, is_controlled,
  classify, complete, cancel, close, finish, run_job, unless_completed, work,
}

-- The events that the handler appends outside of its try blocks, but a RUN_CANCELLED whose
-- `cancelled_at_node` is null.
pub data IsPlain (worker_id : Text) : RunEventType → EventData → Type 0 where
  status_changed : (from to : RunStatus) → IsPlain worker_id run_status_changed (moved from to)
  started : IsPlain worker_id worker_started (started_data worker_id)
  failed :
      (message : Text) (details : Json)
      → IsPlain worker_id runtime_error (failed_data message details)
  completed : (succeeded : Bool) → IsPlain worker_id run_completed (completed_data succeeded)
  cancelled : (node : Text) → IsPlain worker_id run_cancelled (cancelled_data (some node))

-- A store that takes these events of the job, as their schemas do, with the clock's time, and lists
-- what it has taken. It may refuse all others.
pub record IsWorking {W : Type 0} (services : Services W) (worker_id : Text) (job : RunJob)
    : Type 0 where
  pub accepts :
      {type : RunEventType} {d : EventData} (w : W)
      → IsPlain worker_id type d
      → services.rejects
          (create_run_event (services.iso_now w).0 job.run_id job.chat_id type d)
          (services.iso_now w).1
        ≡ none
  pub lists : (run_id : Text) (w : W) → services.list_fails run_id w ≡ none

-- The run has a RUN_COMPLETED or a RUN_CANCELLED.
abbrev pub IsEnded : {W : Type 0} → Text → State W → Type 0
IsEnded run_id s = has_terminal_event (of_run run_id s.log) ≡ true

-- The run is over, or its cancellation has been requested.
abbrev pub IsClosed : {W : Type 0} → Text → State W → Type 0
IsClosed run_id s = IsEnded run_id s ⊎ is_run_cancelled (of_run run_id s.log) ≡ true

abbrev IsFresh : List Text → Type 0
IsFresh seen = has_text (text "RUN_COMPLETED") seen ≡ false

has_text-snoc :
    (k : Text) (seen : List Text) (j : Text)
    → has_text k (seen ++ j ∷ []) ≡ (has_text k seen || text_eq j k)
unfolding has_text
has_text-snoc k [] j = ground arith
has_text-snoc k (i ∷ seen) j = ground (arith, has_text-snoc k seen j)

module _ {W F Context Decision : Type 0} (services : Services W)
    (runtime : Runtime W F Context Decision) (job : RunJob)
    (working : IsWorking services runtime.worker_id job) where
  abbrev pub IsAdded : RunEventType → State W → State W → Type 0
  IsAdded type s t =
      (e : RunEvent) × (e.type ≡ type) × (e.run_id ≡ job.run_id) × (t.log ≡ s.log ++ e ∷ [])

  pub append_new-Returns :
      (type : RunEventType) (d : EventData) (s : State W)
      → IsPlain runtime.worker_id type d
      → Returns (λ _ t. IsAdded type s t) (append_new services job.run_id job.chat_id type d s)
  unfolding append_new append and_then ask
  append_new-Returns type d s plain = rw (working.accepts s.world plain) (
      pure-Returns _ tt _ (
        create_run_event (services.iso_now s.world).0 job.run_id job.chat_id type d,
        refl,
        refl,
        refl,
      ))

  added-IsEnded : (s t : State W) → IsAdded run_completed s t → IsEnded job.run_id t
  unfolding has_terminal_event is_type
  added-IsEnded s t (e, type, own, log) =
      rw
        (
          log,
          of_run-append job.run_id s.log e own,
          any-append (λ f. is_type f.type run_completed || is_type f.type run_cancelled)
              (of_run job.run_id s.log) (e ∷ []),
          type,
        )
        (ground arith)

  list_events-Returns :
      (s : State W)
      → Returns (λ events t. events ≡ of_run job.run_id t.log) (list_events services runtime job s)
  unfolding list_events arrive and_then list_by_run_id
  list_events-Returns s =
      rw (working.lists job.run_id (runtime.arrivals s.world).1) (pure-Returns _ _ _ refl)

  -- Another event than RUN_COMPLETED leaves the keys fresh.
  append_once-IsFresh :
      (seen : List Text) (type : RunEventType) (d : EventData) (s : State W)
      → is_type type run_completed ≡ false
      → IsPlain runtime.worker_id type d
      → IsFresh seen
      → Returns (λ keys _. IsFresh keys) (append_once services runtime job seen type d s)
  unfolding append_once
  append_once-IsFresh seen type d s other plain fresh =
      cond-Returns _ (has_text (key_for_new_event type d) seen) _ _ s
        (λ _. pure-Returns _ seen s fresh)
        λ _. and_then-Returns _ _ (append_new-Returns type d s plain) λ _ t _.
          pure-Returns _ _ t (has_text-snoc _ seen _ ∙ rw (fresh, completed_key type d, other) refl)

  append_once-ends :
      (seen : List Text) (succeeded : Bool) (s : State W)
      → IsFresh seen
      → Returns
          (λ _ t. IsEnded job.run_id t)
          (append_once services runtime job seen run_completed (completed_data succeeded) s)
  unfolding append_once key_for_new_event is_type
  append_once-ends seen succeeded s fresh = rw fresh (
      and_then-Returns _ _
        (append_new-Returns run_completed (completed_data succeeded) s (completed succeeded))
        λ _ t added. pure-Returns _ _ t (added-IsEnded s t added))

  complete-ends :
      (seen : List Text) (succeeded : Bool) (s : State W)
      → IsFresh seen
      → Returns (λ _ t. IsEnded job.run_id t) (complete services runtime job seen succeeded s)
  unfolding complete is_type
  complete-ends seen succeeded s fresh =
      and_then-Returns _ _
        (append_once-IsFresh seen run_status_changed _ s refl (status_changed _ _) fresh)
        λ keys t fresh2.
          and_then-Returns _ _ (append_once-ends keys succeeded t fresh2)
            λ _ u ended. pure-Returns _ succeeded u ended

  classify-Returns :
      (succeeded : Bool) (s : State W)
      → Returns (λ _ _. Unit {0}) (classify services runtime job succeeded s)
  unfolding classify
  classify-Returns succeeded s =
      cond-Returns _ succeeded _ _ s (λ _. pure-Returns _ tt s tt)
        (λ _. caught-Returns _ _ _ (λ _ _. tt) (λ e t. pure-Returns _ tt t tt))

  -- The run is cancelled, no node is active, and the store refuses the RUN_CANCELLED.
  pub record IsStuck (r : Outcome Bool × State W) : Type 0 where
    pub reason : Thrown
    pub state : State W
    pub result : r ≡ (thrown reason, state)
    pub requested : is_run_cancelled (of_run job.run_id state.log) ≡ true
    pub idle : get_active_node_id (of_run job.run_id state.log) ≡ none

  -- The call returns with `P`, or is stuck.
  abbrev pub Settles : (State W → Type 0) → Outcome Bool × State W → Type 0
  Settles P r = Returns (λ _ t. P t) r ⊎ IsStuck r

  and_then-Settles :
      {A : Type 0} (Q : A → State W → Type 0) (P : State W → Type 0) {r : Outcome A × State W}
      {f : A → M W Bool}
      → Returns Q r
      → ((a : A) (t : State W) → Q a t → Settles P (f a t))
      → Settles P (and_then r f)
  unfolding and_then
  and_then-Settles Q P {f = f} h k = rw h.result (k h.value h.state h.holds)

  cond-Settles :
      (P : State W → Type 0) (b : Bool) (m n : M W Bool) (s : State W)
      → (b ≡ true → Settles P (m s))
      → (b ≡ false → Settles P (n s))
      → Settles P (cond b m n s)
  cond-Settles P true m n s h k = h refl
  cond-Settles P false m n s h k = k refl

  cancel-ends :
      (seen : List Text) (events : List RunEvent) (s : State W)
      → IsFresh seen
      → events ≡ of_run job.run_id s.log
      → is_run_cancelled events ≡ true
      → Settles (IsEnded job.run_id) (cancel services runtime job seen events s)
  unfolding cancel and_then
  cancel-ends seen events s fresh own requested = go (get_active_node_id events) refl
    where
      stuck :
          Refused services job.run_id job.chat_id run_cancelled (cancelled_data none) s
          → get_active_node_id events ≡ none
          → IsStuck (
              and_then
                (append_new services job.run_id job.chat_id run_cancelled (cancelled_data none) s)
                (λ _. complete services runtime job seen false))
      stuck refused idle = record {
        reason = refused.reason;
        state = refused.state;
        result = rw refused.result refl;
        requested = rw (refused.log, sym own) requested;
        idle = rw (refused.log, sym own) idle;
      }

      go :
          (node : Option Text)
          → get_active_node_id events ≡ node
          → Settles (IsEnded job.run_id) (
              and_then
                (append_new services job.run_id job.chat_id run_cancelled
                  (cancelled_data (get_active_node_id events))
                  s)
                (λ _. complete services runtime job seen false))
      go (some node) active = rw active (
          inl (
            and_then-Returns _ _
              (append_new-Returns run_cancelled (cancelled_data (some node)) s (cancelled node))
              (λ _ t _. complete-ends seen false t fresh)))
      go none idle =
          rw idle
            (elim (append_new-cases services job.run_id job.chat_id run_cancelled
              (cancelled_data none) s) [
                | inl refused ↦ inr (stuck refused idle)
                | inr appended ↦
                    rw appended.result (inl (complete-ends seen false appended.state fresh))
              ])

  close-ends :
      (seen : List Text) (succeeded : Bool) (s : State W)
      → IsFresh seen
      → Settles (IsEnded job.run_id) (close services runtime job seen succeeded s)
  unfolding close
  close-ends seen succeeded s fresh =
      and_then-Settles (λ _ _. Unit {0}) _ (classify-Returns succeeded s)
        λ _ t _. and_then-Settles _ _ (list_events-Returns t) λ events u own.
          cond-Settles _
            (is_run_cancelled events && not (any (λ e. is_type e.type run_cancelled) events))
            (cancel services runtime job seen events) (complete services runtime job seen succeeded)
            u (λ h. cancel-ends seen events u fresh own (&&_parts (is_run_cancelled events) _ h).0)
            (λ _. inl (complete-ends seen succeeded u fresh))

  finish-ends :
      (seen : List Text) (succeeded : Bool) (s : State W)
      → IsFresh seen
      → Settles (IsEnded job.run_id) (finish services runtime job seen succeeded s)
  unfolding finish
  finish-ends seen succeeded s fresh = and_then-Settles _ _ (list_events-Returns s) λ events t own.
      cond-Settles _ (has_terminal_event events) _ _ t
        (λ ended. inl (pure-Returns _ succeeded t (sym (ap has_terminal_event own) ∙ ended)))
        (λ _. close-ends seen succeeded t fresh)

  report-Returns :
      (e : Thrown) (s : State W) → Returns (λ _ _. Unit {0}) (report services runtime job e s)
  unfolding report
  report-Returns e s =
      and_then-Returns (λ _ _. Unit {0}) _
        (cond-Returns _ (is_controlled (error_message services runtime job e)) (pure tt)
          (append_new services job.run_id job.chat_id runtime_error
            (error_data services runtime job e))
          s (λ _. pure-Returns _ tt s tt)
          (λ _.
            map-Returns (λ _ _ _. tt)
              (append_new-Returns runtime_error (error_data services runtime job e) s
                (failed _ _))))
        (λ _ t _. pure-Returns _ false t tt)

  run_job-ends :
      (seen : List Text) (s : State W)
      → IsFresh seen
      → Settles (IsEnded job.run_id) (run_job services runtime job seen s)
  unfolding run_job is_type
  run_job-ends seen s fresh =
      and_then-Settles _ _
        (append_once-IsFresh seen run_status_changed _ s refl (status_changed _ _) fresh)
        λ keys t fresh2.
          and_then-Settles _ _ (append_once-IsFresh keys worker_started _ t refl started fresh2)
            λ keys2 u fresh3.
              and_then-Settles (λ _ _. Unit {0}) _
                (caught-Returns _ (attempt_run services runtime job u) _ (λ _ _. tt) report-Returns)
                (λ succeeded v _. finish-ends keys2 succeeded v fresh3)

  unless_completed-over :
      (events : List RunEvent) (s : State W)
      → events ≡ of_run job.run_id s.log
      → Settles
          (IsClosed job.run_id)
          (unless_completed services runtime job (get_run_completed_ok events) events s)
  unfolding unless_completed
  unless_completed-over events s own = elim (Option-cases (get_run_completed_ok events)) [
    | inr (b, done) ↦ rw done (
        inl (
          pure-Returns _ b s (
            inl (
              sym (ap has_terminal_event own)
              ∙ (sym (get_run_completed_ok-terminal events) ∙ ap is_some done)))))
    | inl open_run ↦ rw open_run (
        cond-Settles _ (is_run_cancelled events) _ _ s
          (λ cancelled.
            inl (pure-Returns _ false s (inr (sym (ap is_run_cancelled own) ∙ cancelled))))
          (λ _. ended-closed (
            run_job-ends (seen_of events) s (
              seen_of-fresh events
                (sym (get_run_completed_ok-terminal events) ∙ ap is_some open_run)))))
  ]
    where
      ended-closed :
          {r : Outcome Bool × State W}
          → Settles (IsEnded job.run_id) r
          → Settles (IsClosed job.run_id) r
      ended-closed (inl returned) = inl (map-Returns (λ _ _ ended. inl ended) returned)
      ended-closed (inr stuck) = inr stuck

  -- On a store that lists the events of every run and takes those of the job that the handler
  -- appends outside of its try blocks (status changes, WORKER_STARTED, RUNTIME_ERROR, RUN_COMPLETED,
  -- and RUN_CANCELLED with a node that is not null), whatever else it refuses, and whatever the
  -- memory, the meta-planner, the model and the other processes do: the handler of a valid job
  -- returns, and behind it the run has a terminal event or its cancellation has been
  -- requested; or it throws in a run whose cancellation has been requested and that has no active
  -- node.
  pub work-ends :
      z_run_job services runtime job ≡ true
      → (s : State W) → Settles (IsClosed job.run_id) (work services runtime job s)
  unfolding work and_then
  work-ends valid s = rw valid (
      and_then-Settles _ _ (list_events-Returns s)
        (λ events t own. unless_completed-over events t own))

  -- On such a store the run is over, or its cancellation requested, behind every delivery of a
  -- valid job, whether it returns or throws.
  pub work-IsClosed :
      z_run_job services runtime job ≡ true
      → (s : State W) → IsClosed job.run_id (work services runtime job s).1
  work-IsClosed valid s = elim (work-ends valid s) [
    | inl returned ↦ rw returned.result returned.holds
    | inr stuck ↦ rw stuck.result (inr stuck.requested)
  ]
