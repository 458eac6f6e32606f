-- ===== src/Executor/Dependencies.antt =====
-- Which statuses the calls of one node may change.
pub mod Walk
use Prim.Native.Nat.{zero, suc}
use mathlib.Core.Bool.{cond}
use mathlib.Core.Path.{subst}
use cognitive_runtime.Prelude.{
  ℕ, ◌+◌, ◌-◌, ltb, ◌≡◌, refl, sym, ap, ◌∙◌, Bool, true, false, not, Bool-cases, ◌⊎◌, inl, inr,
  Option, none, some, List, [], ◌∷◌, any, All, In, Text, text_eq, text_eq_iff, text_eq_refl,
  if◌then◌else◌, arith,
}
use cognitive_runtime.Prelude.Maps.{get, set, get-set}
use cognitive_runtime.Contracts.Dag.{NodeStatus, DagNode, DagSpec, NodeResult}
use cognitive_runtime.Contracts.Events.{RunEvent}
use cognitive_runtime.Executor.Outcome.{Outcome, ok, thrown}
use cognitive_runtime.Executor.Effects.{Services, State, M, ◌>>=◌, pure}
use cognitive_runtime.Executor.Nodes.{NodeExecContext}
use cognitive_runtime.Executor.Progress.{
  Progress, is_succeeded, dep_failed, set_status, max_attempts_of,
}
use cognitive_runtime.Executor.Attempts.{
  retry, after_failure, after_success, run_attempt, attempt_loop, skip_node, start_node,
}
use cognitive_runtime.Executor.Run.{resume_attempt, goes_on, run_nodes}
use cognitive_runtime.Executor.Ensures.{OnOk, Ensures, bind-Ensures, any-Ensures, cond-Ensures}

abbrev pub Statuses : Type 0
Statuses = List (Text × NodeStatus)

-- Only the status of `id` may differ.
abbrev pub IsFrame : Text → Statuses → Statuses → Type 0
IsFrame id st st' = (x : Text) → text_eq id x ≡ false → get x st' ≡ get x st

IsFrame-set : (id : Text) (v : NodeStatus) (st : Statuses) → IsFrame id st (set id v st)
IsFrame-set id v st x other = rw (get-set id x v st, other)

IsFrame-trans : (id : Text) (a b c : Statuses) → IsFrame id a b → IsFrame id b c → IsFrame id a c
IsFrame-trans id a b c h k x other = k x other ∙ h x other

module _ {W : Type 0} (services : Services W) (ctx : NodeExecContext) (dag : DagSpec) where
  -- A call that changes the status of one node at most.
  abbrev Frames : DagNode → Statuses → M W Progress → Type 0
  Frames n st m = Ensures (λ q. IsFrame n.id st q.status) m

  pure-Frames :
      (n : DagNode) (st : Statuses) (q : Progress) → IsFrame n.id st q.status → Frames n st (pure q)
  pure-Frames n st q h = record { returned = λ s. h }

  -- The value of the first call does not matter.
  then-Frames :
      {A : Type 0} (n : DagNode) (st : Statuses) (m : M W A) {f : A → M W Progress}
      → ((a : A) → Frames n st (f a))
      → Frames n st (m >>= f)
  then-Frames n st m k = bind-Ensures (λ _. Unit {0}) (any-Ensures m) (λ a u. k a)

  after_failure-Frames :
      (n : DagNode) (attempt : ℕ) (r : NodeResult) (p : Progress) (again : M W Progress)
      → Frames n p.status again
      → Frames n p.status (after_failure services ctx dag n attempt r p again)
  unfolding after_failure retry set
  after_failure-Frames n attempt r p again h = then-Frames n p.status _ λ u.
      cond-Ensures _ (ltb attempt (max_attempts_of n))
        (λ e. then-Frames n p.status _ (λ v. then-Frames n p.status _ (λ w. h)))
        (λ e. pure-Frames n p.status _ (IsFrame-set n.id NodeStatus.failed p.status))

  after_success-Frames :
      (n : DagNode) (attempt : ℕ) (r : NodeResult) (p : Progress)
      → Frames n p.status (after_success services ctx dag n attempt r p)
  unfolding after_success
  after_success-Frames n attempt r p =
      then-Frames n p.status _
        λ u. pure-Frames n p.status _ (IsFrame-set n.id NodeStatus.succeeded p.status)

  Frames-from :
      (n : DagNode) (a b : Statuses) (m : M W Progress)
      → IsFrame n.id a b
      → Frames n b m
      → Frames n a m
  Frames-from n a b m h k = record { returned = λ s. weaken (m s).0 (k.returned s) }
    where
      weaken :
          (o : Outcome Progress)
          → OnOk (λ q. IsFrame n.id b q.status) o
          → OnOk (λ q. IsFrame n.id a q.status) o
      weaken (ok q) j = IsFrame-trans n.id a b q.status h j
      weaken (thrown e) j = tt

  run_attempt-Frames :
      (n : DagNode) (attempt : ℕ) (p : Progress) (again : Progress → M W Progress)
      → ((q : Progress) → Frames n q.status (again q))
      → Frames n p.status (run_attempt services ctx dag n attempt p again)
  unfolding run_attempt
  run_attempt-Frames n attempt p again h = then-Frames n p.status _ λ u.
      then-Frames n p.status _ λ r.
        Frames-from n p.status (set n.id NodeStatus.running p.status) _
          (IsFrame-set n.id NodeStatus.running p.status)
          (cond-Ensures _ r.ok (λ e. after_success-Frames n attempt r _)
            (λ e. after_failure-Frames n attempt r _ _ (h _)))

  attempt_loop-Frames :
      (left attempt : ℕ) (n : DagNode) (p : Progress)
      → Frames n p.status (attempt_loop services ctx dag left attempt n p)
  unfolding attempt_loop
  attempt_loop-Frames zero attempt n p = pure-Frames n p.status p (λ x other. refl)
  attempt_loop-Frames (suc left) attempt n p =
      run_attempt-Frames n attempt p _ (λ q. attempt_loop-Frames left (attempt + 1) n q)

  pub skip_node-Skips :
      (n : DagNode) (p : Progress)
      → Ensures
          (λ q. q.status ≡ set n.id NodeStatus.skipped p.status)
          (skip_node services ctx dag n p)
  unfolding skip_node set
  skip_node-Skips n p =
      bind-Ensures (λ _. Unit {0}) (any-Ensures _) (λ u v. record { returned = λ s. refl })

  pub start_node-Frames :
      (n : DagNode) (attempt : ℕ) (p : Progress)
      → Ensures (λ q. IsFrame n.id p.status q.status) (start_node services ctx dag n attempt p)
  unfolding start_node
  start_node-Frames n attempt p =
      cond-Ensures _ (ltb (max_attempts_of n) attempt)
        (λ e. pure-Frames n p.status _ (IsFrame-set n.id NodeStatus.failed p.status))
        (λ e. attempt_loop-Frames (max_attempts_of n + 1 - attempt) attempt n p)
