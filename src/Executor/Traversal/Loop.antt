-- ===== src/Executor/Traversal/Loop.antt =====
-- The walk over the loops of executeDag.
use Prim.Native.Nat.{zero, suc}
use cognitive_runtime.Prelude.{
  ℕ, ◌+◌, ◌-◌, ◌*◌, ◌≤◌, ltb, refl, Bool-cases, inl, inr, List, [], ◌∷◌, Text, arith,
}
use cognitive_runtime.Contracts.Dag.{DagNode, DagSpec, NodeResult}
use cognitive_runtime.Contracts.EventTypes.{is_type}
use cognitive_runtime.Contracts.EventTypes
use cognitive_runtime.Contracts.Events.{RunEvent}
use cognitive_runtime.Executor.Effects.{Services, State, M}
use cognitive_runtime.Executor.Order.{NodeMap}
use cognitive_runtime.Executor.Nodes.{NodeExecContext}
use cognitive_runtime.Executor.Progress.{
  Progress, is_succeeded, dep_failed, max_attempts_of, backoff_of,
}
use cognitive_runtime.Executor.Attempts.{
  sleep_if_positive, retry, after_failure, after_success, run_attempt, attempt_loop, skip_node,
  start_node,
}
use cognitive_runtime.Executor.Run.{resume_attempt, goes_on, run_nodes, queue_nodes, execute_fresh}
use cognitive_runtime.Executor.Derive.Resume.{resume-IsFresh}
use cognitive_runtime.Executor.Respects.{
  lift-Respects, Respects, bind-Respects, try_catch-Respects, cond-Respects,
}
use cognitive_runtime.Executor.Traversal.{IsRule}
use cognitive_runtime.Executor.Traversal.NodeKinds.{run_node-Respects, emits_other}

module _ {W : Type 0} (services : Services W) (ctx : NodeExecContext) (dag : DagSpec)
    (R : State W → State W → Type 0) (rule : IsRule services dag R) where
  open rule use {stable, emits}

  sleep-Respects : (ms : ℕ) → Respects R (sleep_if_positive services ctx dag ms)
  sleep-Respects zero = lift-Respects stable _
  sleep-Respects (suc ms) = record { after = λ s. stable.world s _ }

  retry-Respects :
      (n : DagNode) (attempt : ℕ) (again : M W Progress)
      → Respects R again
      → Respects R (retry services ctx dag n attempt again)
  unfolding retry is_type
  retry-Respects n attempt again h =
      bind-Respects stable
        (emits_other services ctx dag R rule EventTypes.node_retry_scheduled _ refl refl)
        λ u. bind-Respects stable (sleep-Respects (backoff_of n * attempt)) (λ v. h)

  after_failure-Respects :
      (n : DagNode) (attempt : ℕ) (r : NodeResult) (p : Progress) (again : M W Progress)
      → Respects R again
      → Respects R (after_failure services ctx dag n attempt r p again)
  unfolding after_failure is_type
  after_failure-Respects n attempt r p again h =
      bind-Respects stable (emits_other services ctx dag R rule EventTypes.node_failed _ refl refl)
        λ u.
          cond-Respects stable (ltb attempt (max_attempts_of n)) (retry-Respects n attempt again h)
            (lift-Respects stable _)

  after_success-Respects :
      (n : DagNode) (attempt : ℕ) (r : NodeResult) (p : Progress)
      → Respects R (after_success services ctx dag n attempt r p)
  unfolding after_success is_type
  after_success-Respects n attempt r p =
      bind-Respects stable
        (emits_other services ctx dag R rule EventTypes.node_succeeded _ refl refl)
        (λ u. lift-Respects stable _)

  run_attempt-Respects :
      (n : DagNode) (attempt : ℕ) (p : Progress) (again : Progress → M W Progress)
      → 1 ≤ attempt
      → attempt ≤ 2
      → ((q : Progress) → Respects R (again q))
      → Respects R (run_attempt services ctx dag n attempt p again)
  unfolding run_attempt
  run_attempt-Respects n attempt p again low high h =
      bind-Respects stable (emits EventTypes.node_started _ refl (λ _. (low, high))) λ u.
        bind-Respects stable
          (try_catch-Respects stable (run_node-Respects services ctx dag R rule n attempt p.outputs)
            (λ e. lift-Respects stable _))
          λ r.
            cond-Respects stable r.ok (after_success-Respects n attempt r _)
              (after_failure-Respects n attempt r _ _ (h _))

  attempt_loop-Respects :
      (left attempt : ℕ) (n : DagNode) (p : Progress)
      → 1 ≤ attempt
      → attempt + left ≤ 3
      → Respects R (attempt_loop services ctx dag left attempt n p)
  unfolding attempt_loop
  attempt_loop-Respects zero attempt n p low high = lift-Respects stable _
  attempt_loop-Respects (suc left) attempt n p low high =
      run_attempt-Respects n attempt p _ low (omega arith)
        λ q. attempt_loop-Respects left (attempt + 1) n q (omega arith) (omega arith)

  skip_node-Respects : (n : DagNode) (p : Progress) → Respects R (skip_node services ctx dag n p)
  unfolding skip_node is_type
  skip_node-Respects n p =
      bind-Respects stable (emits_other services ctx dag R rule EventTypes.node_failed _ refl refl)
        (λ u. lift-Respects stable _)

  start_node-Respects :
      (n : DagNode) (attempt : ℕ) (p : Progress)
      → 1 ≤ attempt
      → Respects R (start_node services ctx dag n attempt p)
  unfolding start_node
  start_node-Respects n attempt p low = elim (Bool-cases (ltb (max_attempts_of n) attempt)) [
    | inl above ↦ rw above (lift-Respects stable _)
    | inr within ↦
        rw within
          (attempt_loop-Respects (max_attempts_of n + 1 - attempt) attempt n p low (ground arith))
  ]

  run_nodes-Respects :
      (events : List RunEvent) (ns : List DagNode) (p : Progress)
      → Respects R (run_nodes services ctx dag events ns p)
  unfolding run_nodes resume_attempt
  run_nodes-Respects events [] p = lift-Respects stable _
  run_nodes-Respects events (n ∷ ns) p =
      let rest = run_nodes-Respects events ns in
      cond-Respects stable (is_succeeded p n.id) (rest p) (
        cond-Respects stable (dep_failed p n)
          (bind-Respects stable (skip_node-Respects n p) (λ q. rest q))
          (bind-Respects stable (start_node-Respects n _ p (resume-IsFresh n events).positive) λ q.
            cond-Respects stable
              (goes_on services ctx dag n (resume_attempt services ctx dag events n) q) (rest q)
              (lift-Respects stable _)))

  queue_nodes-Respects :
      (by_id : NodeMap) (ids : List Text) → Respects R (queue_nodes services ctx dag by_id ids)
  unfolding queue_nodes is_type
  queue_nodes-Respects by_id [] = lift-Respects stable _
  queue_nodes-Respects by_id (id ∷ ids) =
      bind-Respects stable (emits_other services ctx dag R rule EventTypes.node_queued _ refl refl)
        (λ u. queue_nodes-Respects by_id ids)

  -- A run of a DAG that has not completed respects every rule.
  pub execute_fresh-Respects :
      (events : List RunEvent) → Respects R (execute_fresh services ctx dag events)
  unfolding execute_fresh is_type
  execute_fresh-Respects events =
      bind-Respects stable (emits_other services ctx dag R rule EventTypes.dag_planned _ refl refl)
        λ u. bind-Respects stable (queue_nodes-Respects _ _) λ v.
          bind-Respects stable (lift-Respects stable _) λ ordered.
            bind-Respects stable (run_nodes-Respects events ordered _) λ p.
              bind-Respects stable
                (emits_other services ctx dag R rule EventTypes.dag_completed _ refl refl)
                (λ w. lift-Respects stable _)
