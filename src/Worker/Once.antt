-- ===== src/Worker/Once.antt =====
-- A run is completed once.
use cognitive_runtime.Prelude.{
  ℕ, ◌+◌, ◌≤◌, max, ◌≡◌, refl, Bool, true, false, ◌||◌, not, ◌&&◌, Bool-cases, inl, inr, Option,
  Option-cases, none, some, List, [], ◌∷◌, keep, any, length, Text, arith,
}
use mathlib.Core.Bool.{cond}
use cognitive_runtime.Prelude.Maps.{has_text}
use cognitive_runtime.Contracts.EventTypes
use cognitive_runtime.Contracts.EventTypes.{RunEventType, is_type, run_completed, run_cancelled}
use cognitive_runtime.Contracts.Events.{RunEvent, EventData}
use cognitive_runtime.Executor.Outcome.{Outcome, ok, thrown}
use cognitive_runtime.Executor.Effects.{Services, State, M, pure, ◌>>=◌, and_then, list_by_run_id}
use cognitive_runtime.Executor.Appended.{of_run}
use cognitive_runtime.Executor.Respects.{
  IsStable, Respects, bind-Respects, try_catch-Respects, cond-Respects, lift-Respects,
}
use cognitive_runtime.Lifecycle.{has_terminal_event, is_run_cancelled}
use cognitive_runtime.Runs.Routes.{RunJob}
use cognitive_runtime.Worker.{key_for_new_event}
use cognitive_runtime.Worker.Quiet.{completions, IsQuiet, append_new-adds}
use cognitive_runtime.Worker.Walk.{
  IsAlone, arrive-Quiet, list_events-Quiet, event-Quiet, attempt_run-Quiet, report-Quiet,
  classify-Quiet, Quiet, stable,
}
use cognitive_runtime.Worker.Job.{
  Runtime, completed_data, arrive, list_events, append_once, complete, cancel, close, finish,
  run_job, unless_completed, work,
}

-- No terminal event, no RUN_COMPLETED.
open_run-zero :
    (run_id : Text) (log : List RunEvent)
    → has_terminal_event (of_run run_id log) ≡ false
    → completions run_id log ≡ 0
unfolding completions has_terminal_event
open_run-zero run_id log h = go (of_run run_id log) h
  where
    go :
        (es : List RunEvent)
        → any (λ e. is_type e.type run_completed || is_type e.type run_cancelled) es ≡ false
        → length (keep (λ e. is_type e.type run_completed) es) ≡ 0
    go [] h = refl
    go (e ∷ es) h = ground (arith, go es)

module _ {W F Context Decision : Type 0} (services : Services W)
    (runtime : Runtime W F Context Decision) (job : RunJob) (alone : IsAlone runtime job) where
  abbrev count : State W → ℕ
  count s = completions job.run_id s.log

  -- At most one RUN_COMPLETED is added.
  record Grows {A : Type 0} (m : M W A) : Type 0 where
    after : (s : State W) → count (m s).1 ≤ count s + 1

  Quiet-Grows : {A : Type 0} (m : M W A) → Quiet services runtime job alone m → Grows m
  Quiet-Grows m h = record { after = λ s. omega (arith, (h.after s).none_added) }

  and_then-count :
      {A B : Type 0} (n : ℕ) (r : Outcome A × State W) (f : A → M W B)
      → count r.1 ≤ n
      → ((a : A) (t : State W) → count t ≤ n → count (f a t).1 ≤ n + 1)
      → count (and_then r f).1 ≤ n + 1
  unfolding and_then
  and_then-count n (ok a, t) f h k = k a t h
  and_then-count n (thrown e, t) f h k = omega (arith, h)

  -- A quiet call, and one that adds an event at most.
  quiet_then-Grows :
      {A B : Type 0} (m : M W A) (f : A → M W B)
      → Respects (IsQuiet job.run_id) m
      → ((a : A) → Grows (f a))
      → Grows (m >>= f)
  quiet_then-Grows m f h k = record {
    after = λ s.
        and_then-count (count s) (m s) f (h.after s).none_added
          (λ a t low. omega (arith, low, (k a).after t));
  }

  and_then-quiet :
      {A B : Type 0} (n : ℕ) (r : Outcome A × State W) (f : A → M W B)
      → count r.1 ≤ n
      → ((a : A) → Respects (IsQuiet job.run_id) (f a))
      → count (and_then r f).1 ≤ n
  unfolding and_then
  and_then-quiet n (ok a, t) f h k = omega (arith, h, ((k a).after t).none_added)
  and_then-quiet n (thrown e, t) f h k = h

  then_quiet-Grows :
      {A B : Type 0} (m : M W A) (f : A → M W B)
      → Grows m
      → ((a : A) → Respects (IsQuiet job.run_id) (f a))
      → Grows (m >>= f)
  then_quiet-Grows m f h k = record {
    after = λ s. and_then-quiet (count s + 1) (m s) f (h.after s) k;
  }

  cond-Grows : {A : Type 0} (b : Bool) (m n : M W A) → Grows m → Grows n → Grows (cond b m n)
  cond-Grows true m n h k = h
  cond-Grows false m n h k = k

  append_once-Quiet :
      (seen : List Text) (type : RunEventType) (d : EventData)
      → is_type type run_completed ≡ false
      → Respects (IsQuiet job.run_id) (append_once services runtime job seen type d)
  unfolding append_once
  append_once-Quiet seen type d other =
      cond-Respects (stable services runtime job alone) (has_text (key_for_new_event type d) seen)
        (lift-Respects (stable services runtime job alone) _)
        (bind-Respects (stable services runtime job alone)
          (event-Quiet services runtime job alone type d other)
          (λ _. lift-Respects (stable services runtime job alone) _))

  append_once-Grows :
      (seen : List Text) (d : EventData)
      → Grows (append_once services runtime job seen run_completed d)
  unfolding append_once
  append_once-Grows seen d =
      cond-Grows (has_text (key_for_new_event run_completed d) seen) _ _
        (Quiet-Grows _ (lift-Respects (stable services runtime job alone) _))
        (then_quiet-Grows _ _
          (record { after = append_new-adds services job.run_id job.chat_id run_completed d })
          (λ _. lift-Respects (stable services runtime job alone) _))

  complete-Grows :
      (seen : List Text) (succeeded : Bool) → Grows (complete services runtime job seen succeeded)
  unfolding complete is_type
  complete-Grows seen succeeded =
      quiet_then-Grows _ _ (append_once-Quiet seen EventTypes.run_status_changed _ refl) λ keys.
        then_quiet-Grows _ _ (append_once-Grows keys (completed_data succeeded))
          (λ _. lift-Respects (stable services runtime job alone) _)

  close-Grows :
      (seen : List Text) (succeeded : Bool) → Grows (close services runtime job seen succeeded)
  unfolding close cancel is_type
  close-Grows seen succeeded =
      quiet_then-Grows _ _ (classify-Quiet services runtime job alone succeeded) λ _.
        quiet_then-Grows _ _ (list_events-Quiet services runtime job alone) λ events.
          cond-Grows
            (is_run_cancelled events && not (any (λ e. is_type e.type run_cancelled) events))
            (cancel services runtime job seen events) (complete services runtime job seen succeeded)
            (quiet_then-Grows _ _ (event-Quiet services runtime job alone run_cancelled _ refl)
              (λ _. complete-Grows seen false))
            (complete-Grows seen succeeded)

  -- A run that has not been completed more than once still has not, and else the number of its
  -- RUN_COMPLETED events does not grow.
  record IsOnce (s t : State W) : Type 0 where
    bound : count t ≤ max 1 (count s)

  once : IsStable IsOnce
  once = record {
    same = λ s. record { bound = omega arith };
    trans = λ s t u a b. record { bound = omega (arith, a.bound, b.bound) };
    world = λ s w. record { bound = omega arith };
  }

  quiet-IsOnce : {A : Type 0} (m : M W A) → Respects (IsQuiet job.run_id) m → Respects IsOnce m
  quiet-IsOnce m h = record {
    after = λ s. record { bound = omega (arith, (h.after s).none_added) };
  }

  -- Behind the last look at the log.
  finish_listed-IsOnce :
      (seen : List Text) (succeeded : Bool) (t : State W)
      → IsOnce t
          (cond
            (has_terminal_event (of_run job.run_id t.log))
            (pure succeeded)
            (close services runtime job seen succeeded)
            t).1
  finish_listed-IsOnce seen succeeded t =
      elim (Bool-cases (has_terminal_event (of_run job.run_id t.log))) [
        | inl ended ↦ rw ended (once.same t)
        | inr unfinished ↦ rw unfinished (record {
          bound = omega (
            arith,
            (close-Grows seen succeeded).after t,
            open_run-zero job.run_id t.log unfinished,
          );
        })
      ]

  arrive-IsOnce : (s : State W) → IsOnce s (arrive services runtime job s).1
  arrive-IsOnce s = (quiet-IsOnce _ (arrive-Quiet services runtime job alone)).after s

  finish-after :
      (seen : List Text) (succeeded : Bool) (s : State W)
      → IsOnce s (finish services runtime job seen succeeded s).1
  unfolding finish list_events arrive list_by_run_id and_then
  finish-after seen succeeded s =
      elim (Option-cases (services.list_fails job.run_id (runtime.arrivals s.world).1)) [
        | inl listed ↦
            rw listed (once.trans s _ _ (arrive-IsOnce s) (finish_listed-IsOnce seen succeeded _))
        | inr (e, failed) ↦ rw failed (arrive-IsOnce s)
      ]

  run_job-IsOnce : (seen : List Text) → Respects IsOnce (run_job services runtime job seen)
  unfolding run_job is_type
  run_job-IsOnce seen =
      bind-Respects once
        (quiet-IsOnce _ (append_once-Quiet seen EventTypes.run_status_changed _ refl))
        λ keys.
          bind-Respects once
            (quiet-IsOnce _ (append_once-Quiet keys EventTypes.worker_started _ refl))
            λ keys2.
              bind-Respects once
                (quiet-IsOnce _ (
                  try_catch-Respects (stable services runtime job alone)
                    (attempt_run-Quiet services runtime job alone)
                    (report-Quiet services runtime job alone)))
                (λ succeeded. record { after = finish-after keys2 succeeded })

  unless_completed-IsOnce :
      (answer : Option Bool) (events : List RunEvent)
      → Respects IsOnce (unless_completed services runtime job answer events)
  unfolding unless_completed
  unless_completed-IsOnce (some b) events = lift-Respects once _
  unless_completed-IsOnce none events =
      cond-Respects once (is_run_cancelled events) (lift-Respects once _) (run_job-IsOnce _)

  -- If the worker alone completes the run, a run with at most one RUN_COMPLETED still has at most
  -- one behind a job, whatever the store refuses and whichever call throws.
  pub work-IsOnce :
      (s : State W)
      → completions job.run_id s.log ≤ 1
      → completions job.run_id (work services runtime job s).1.log ≤ 1
  unfolding work
  work-IsOnce s low = omega (arith, low, (whole.after s).bound)
    where
      whole : Respects IsOnce (work services runtime job)
      whole = bind-Respects once (lift-Respects once _) λ _.
          bind-Respects once (quiet-IsOnce _ (list_events-Quiet services runtime job alone))
            (λ events. unless_completed-IsOnce _ events)
