-- ===== src/Executor/Attempts.antt =====
-- The attempts at a node: the loop `while (attempt <= maxAttempts)` of executeDag.
use Prim.Native.Nat.{zero, suc}
use cognitive_runtime.Prelude.{ℕ, ◌+◌, ◌-◌, ◌*◌, ltb, Option, none, some, Text, text, decimal}
use mathlib.Core.Bool.{cond}
use cognitive_runtime.Prelude.Maps.{set}
use cognitive_runtime.Contracts.Json.{Json, str}
use cognitive_runtime.Contracts.Dag.{NodeStatus, DagNode, DagSpec, NodeResult, NodeError}
use cognitive_runtime.Contracts.EventTypes.{
  node_started, node_succeeded, node_failed, node_retry_scheduled,
}
use cognitive_runtime.Contracts.Events.{EventData, no_data}
use cognitive_runtime.Executor.Outcome.{Outcome, Thrown}
use cognitive_runtime.Executor.Effects.{Services, M, ◌>>=◌, ◌>>◌, pure, try_catch}
use cognitive_runtime.Executor.Emit.{emit}
use cognitive_runtime.Executor.Nodes.{NodeExecContext, fail, message_or}
use cognitive_runtime.Executor.Nodes.Kinds.{run_node}
use cognitive_runtime.Executor.Progress.{
  Progress, set_status, set_result, set_output, max_attempts_of, backoff_of, skipped_result,
  exhausted_result, error_code, error_message,
}

-- `r.error` is set on every result with `ok: false`; `outputBytes` of a string or of JSON text.
module _ {W : Type 0} (services : Services W) (ctx : NodeExecContext) (dag : DagSpec) where
  open services use {stringify, byte_length, sleep}

  abbrev output_bytes : Option Json → Option ℕ
  output_bytes none = none
  output_bytes (some (str t)) = some (byte_length t)
  output_bytes (some v) = some (byte_length (stringify v))

  abbrev node_data : Text → ℕ → EventData
  node_data id attempt = record no_data {
    dag_id = some dag.dag_id;
    node_id = some id;
    attempt = some attempt;
  }

  abbrev exception_result : Thrown → M W NodeResult
  exception_result e =
      pure (fail (text "NODE_EXCEPTION") (message_or e.message (text "Node threw an exception")))

  abbrev pub failed_data : Text → ℕ → Option NodeError → EventData
  failed_data id attempt error = record (node_data id attempt) {
    error = some (record {
      code = error_code error (text "NODE_FAILED");
      message = error_message error (text "Node failed");
      details = none;
    });
  }

  abbrev pub sleep_if_positive : ℕ → M W (Unit {0})
  sleep_if_positive zero s = (Outcome.ok tt, s)
  sleep_if_positive (suc ms) s = (Outcome.ok tt, record s { world = sleep (suc ms) s.world })

  unfoldable pub retry : DagNode → ℕ → M W Progress → M W Progress
  retry n attempt again = do
    emit services dag node_retry_scheduled (record no_data {
      dag_id = some dag.dag_id;
      node_id = some n.id;
      next_attempt_in_ms = some (backoff_of n * attempt);
    })
    sleep_if_positive (backoff_of n * attempt)
    again

  -- The part of the loop's body behind a failed run: `again` is the next round.
  unfoldable pub after_failure : DagNode → ℕ → NodeResult → Progress → M W Progress → M W Progress
  unfolding set
  after_failure n attempt r p again = do
    emit services dag node_failed (failed_data n.id attempt r.error)
    cond (ltb attempt (max_attempts_of n)) (retry n attempt again)
        (pure (set_status n.id NodeStatus.failed p))

  unfoldable pub after_success : DagNode → ℕ → NodeResult → Progress → M W Progress
  unfolding set
  after_success n attempt r p = do
    emit services dag node_succeeded (record (node_data n.id attempt) {
      output = r.output;
      output_bytes = output_bytes r.output;
    })
    pure (set_output n.id r.output (set_status n.id NodeStatus.succeeded p))

  -- One round: NODE_STARTED, the node, and the event of its result.
  unfoldable pub run_attempt : DagNode → ℕ → Progress → (Progress → M W Progress) → M W Progress
  unfolding set
  run_attempt n attempt p again = do
    emit services dag node_started (node_data n.id attempt)
    r ← try_catch (run_node services ctx dag n attempt p.outputs) exception_result
    let p' = set_result n.id r (set_status n.id NodeStatus.running p)
    cond r.ok (after_success n attempt r p') (after_failure n attempt r p' (again p'))

  -- `while (attempt <= maxAttempts)`, by the rounds that are left.
  unfoldable pub attempt_loop : ℕ → ℕ → DagNode → Progress → M W Progress
  attempt_loop zero attempt n p = pure p
  attempt_loop (suc left) attempt n p =
      run_attempt n attempt p (λ q. attempt_loop left (attempt + 1) n q)

  unfoldable pub skip_node : DagNode → Progress → M W Progress
  unfolding set
  skip_node n p = do
    emit services dag node_failed (failed_data n.id 1 (skipped_result n).error)
    pure (set_result n.id (skipped_result n) (set_status n.id NodeStatus.skipped p))

  -- A node whose dependencies succeeded.
  unfoldable pub start_node : DagNode → ℕ → Progress → M W Progress
  unfolding set decimal
  start_node n attempt p =
      cond (ltb (max_attempts_of n) attempt)
        (pure (set_result n.id (exhausted_result n) (set_status n.id NodeStatus.failed p)))
        (attempt_loop (max_attempts_of n + 1 - attempt) attempt n p)
