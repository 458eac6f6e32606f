-- ===== src/Worker/Stopped.antt =====
-- A run that is not to be executed.
use cognitive_runtime.Prelude.{◌≡◌, refl, Bool, true, false, none}
use cognitive_runtime.Prelude.{starts_with}
use cognitive_runtime.Executor.Outcome.{ok}
use cognitive_runtime.Executor.Effects.{
  Services, State, M, ◌>>◌, and_then, caught, try_catch, list_by_run_id,
}
use cognitive_runtime.Executor.Appended.{of_run}
use cognitive_runtime.Lifecycle.{is_run_cancelled}
use cognitive_runtime.Runs.Routes.{RunJob}
use cognitive_runtime.Worker.Job.{
  Runtime, arrive, list_events, check_cancelled, report, is_controlled,
}

module _ {W F Context Decision : Type 0} (services : Services W)
    (runtime : Runtime W F Context Decision) (job : RunJob) where
  -- If a request to cancel the run can be read when the handler checks for one, the rest of the
  -- try block, whatever it is, is not run: the catch block answers `false`, and nothing is
  -- appended, no RUNTIME_ERROR either.
  pub check_cancelled-stops :
      (rest : M W Bool) (s : State W)
      → services.list_fails job.run_id (arrive services runtime job s).1.world ≡ none
      → is_run_cancelled (of_run job.run_id (arrive services runtime job s).1.log) ≡ true
      → try_catch (check_cancelled services runtime job >> rest) (report services runtime job) s
        ≡ (ok false, (arrive services runtime job s).1)
  unfolding check_cancelled report is_controlled starts_with list_events arrive list_by_run_id
      and_then caught
  check_cancelled-stops rest s listed cancelled = rw (listed, cancelled) refl
