-- ===== src/Worker/Repeat.antt =====
-- A job that is delivered again.
use cognitive_runtime.Prelude.{
  ◌≡◌, refl, sym, ap, ◌∙◌, Bool, true, false, ◌⊎◌, inl, inr, Option-cases, is_some, List, ◌++◌, any,
  any-append, keep-append, text_eq,
}
use cognitive_runtime.Contracts.Events.{RunEvent}
use cognitive_runtime.Executor.Effects.{Services, State, and_then, list_by_run_id}
use cognitive_runtime.Executor.Appended.{of_run}
use cognitive_runtime.Executor.Returns.{Returns, pure-Returns}
use cognitive_runtime.Lifecycle.{has_terminal_event, is_run_cancelled}
use cognitive_runtime.Runs.Routes.{RunJob}
use cognitive_runtime.Worker.{get_run_completed_ok}
use cognitive_runtime.Worker.Keys.{get_run_completed_ok-terminal}
use cognitive_runtime.Worker.Ends.{IsWorking, IsClosed, work-IsClosed}
use cognitive_runtime.Worker.Job.{Runtime, arrive, list_events, z_run_job, unless_completed, work}

module _ {W F Context Decision : Type 0} (services : Services W)
    (runtime : Runtime W F Context Decision) (job : RunJob)
    (working : IsWorking services runtime.worker_id job) where
  -- The state once the events of the other processes have arrived.
  abbrev pub arrived : State W → State W
  arrived s = record s {
    log = s.log ++ (runtime.arrivals s.world).0;
    world = (runtime.arrivals s.world).1;
  }

  any-arrived :
      (p : RunEvent → Bool) (s : State W)
      → any p (of_run job.run_id s.log) ≡ true
      → any p (of_run job.run_id (arrived s).log) ≡ true
  any-arrived p s h =
      rw
        (
          keep-append (λ e. text_eq e.run_id job.run_id) s.log (runtime.arrivals s.world).0,
          any-append p (of_run job.run_id s.log) (of_run job.run_id (runtime.arrivals s.world).0),
          h,
        )
        refl

  arrived-IsClosed : (s : State W) → IsClosed job.run_id s → IsClosed job.run_id (arrived s)
  unfolding has_terminal_event is_run_cancelled
  arrived-IsClosed s (inl ended) = inl (any-arrived _ s ended)
  arrived-IsClosed s (inr cancelled) = inr (any-arrived _ s cancelled)

  -- A run that is over is left alone.
  unless_completed-skips :
      (events : List RunEvent) (s : State W)
      → (has_terminal_event events ≡ true) ⊎ (is_run_cancelled events ≡ true)
      → Returns
          (λ _ t. t ≡ s)
          (unless_completed services runtime job (get_run_completed_ok events) events s)
  unfolding unless_completed
  unless_completed-skips events s over = elim (Option-cases (get_run_completed_ok events)) [
    | inr (b, done) ↦ rw done (pure-Returns _ b s refl)
    | inl open_run ↦ elim over [
      | inl ended ↦ absurd (
          no_clash (sym ended ∙ (sym (get_run_completed_ok-terminal events) ∙ ap is_some open_run)))
      | inr cancelled ↦ rw (open_run, cancelled) (pure-Returns _ false s refl)
    ]
  ]
    where
      no_clash : true ≡ false → ⊥
      no_clash e = cc

  work-skips :
      z_run_job services runtime job ≡ true
      → (s : State W) → IsClosed job.run_id (arrived s)
      → Returns (λ _ t. t ≡ arrived s) (work services runtime job s)
  unfolding work and_then list_events arrive list_by_run_id
  work-skips valid s over =
      rw (valid, working.lists job.run_id (runtime.arrivals s.world).1)
        (unless_completed-skips (of_run job.run_id (arrived s).log) (arrived s) over)

  -- A queue may deliver a job again. On a store that lists the events of every run and takes those
  -- of the job that the handler appends outside of its try blocks (but a RUN_CANCELLED whose node is
  -- null), behind a delivery of a valid job, whether it has returned or thrown, the handler of a
  -- second delivery returns and appends nothing at all. The log is the one that it found, with what
  -- other processes have appended.
  pub work-twice :
      z_run_job services runtime job ≡ true
      → (s : State W)
      → Returns
          (λ _ u. u ≡ arrived (work services runtime job s).1)
          (work services runtime job (work services runtime job s).1)
  work-twice valid s = work-skips valid (work services runtime job s).1 (
      arrived-IsClosed (work services runtime job s).1
        (work-IsClosed services runtime job working valid s))
