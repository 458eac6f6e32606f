-- ===== src/Executor/Run.antt =====
-- executeDag: the loop over the nodes, and what stands before and after it.
use cognitive_runtime.Prelude.{
  ℕ, ltb, Bool, false, ◌||◌, if◌then◌else◌, Option, none, some, get_or, List, [], ◌∷◌, keep, every,
  last, length, Text, text, text_lt, text_eq,
}
use mathlib.Core.Bool.{cond}
use cognitive_runtime.Prelude.Maps.{get, set, keys}
use cognitive_runtime.Prelude.Sorting.{sort}
use cognitive_runtime.Contracts.Json.{str, arr, nil, object, fields}
use cognitive_runtime.Contracts.Dag.{NodeKind, NodeStatus, DagNode, DagSpec, NodeResult}
use cognitive_runtime.Contracts.EventTypes.{
  is_type, validation_error, dag_planned, node_queued, dag_completed,
}
use cognitive_runtime.Contracts.Events.{RunEvent, no_data}
use cognitive_runtime.Executor.Outcome.{Outcome, Thrown}
use cognitive_runtime.Executor.Effects.{
  Services, M, ◌>>=◌, ◌>>◌, pure, lift, append_new, list_by_run_id,
}
use cognitive_runtime.Executor.Order.{NodeMap, stable_topological_order}
use cognitive_runtime.Executor.Validate.{validate_dag_spec_or_throw, node_map}
use cognitive_runtime.Executor.Derive.{events_for_dag, derive_node_state, choose_attempt_for_resume}
use cognitive_runtime.Executor.Fingerprint.{fingerprint_dag}
use cognitive_runtime.Executor.Emit.{emit, seen_keys}
use cognitive_runtime.Executor.Nodes.{NodeExecContext, succeed, message_or}
use cognitive_runtime.Executor.Progress.{
  Progress, is_succeeded, dep_failed, set_status, set_result, set_output, max_attempts_of,
}
use cognitive_runtime.Executor.Attempts.{start_node, skip_node}

module _ {W : Type 0} (services : Services W) (ctx : NodeExecContext) (dag : DagSpec) where
  -- `stateByNodeId.get(n.id)!` was computed from the stored events before the loop.
  unfoldable pub resume_attempt : List RunEvent → DagNode → ℕ
  unfolding derive_node_state choose_attempt_for_resume
  resume_attempt dag_events n = choose_attempt_for_resume (derive_node_state n dag_events)

  -- The loop goes on behind a node that is skipped or has no attempt left, and breaks behind one
  -- that ran and did not succeed.
  unfoldable pub goes_on : DagNode → ℕ → Progress → Bool
  unfolding is_succeeded
  goes_on n attempt p = ltb (max_attempts_of n) attempt || is_succeeded p n.id

  -- `for (const n of ordered)`
  unfoldable pub run_nodes : List RunEvent → List DagNode → Progress → M W Progress
  unfolding is_succeeded dep_failed resume_attempt goes_on
  run_nodes dag_events [] p = pure p
  run_nodes dag_events (n ∷ ns) p =
      let rest = λ (q : Progress). run_nodes dag_events ns q in
      cond (is_succeeded p n.id) (rest p) (
        cond (dep_failed p n) (do q ← skip_node services ctx dag n p; rest q)
          (do
            q ← start_node services ctx dag n (resume_attempt dag_events n) p
            cond (goes_on n (resume_attempt dag_events n) q) (rest q) (pure q)))

  unfoldable pub init_node : List RunEvent → DagNode → Progress → Progress
  unfolding derive_node_state set
  init_node dag_events n p =
      let st = derive_node_state n dag_events in
      if st.succeeded
      then set_result n.id (succeed st.last_succeeded_output)
          (set_output n.id st.last_succeeded_output (set_status n.id NodeStatus.succeeded p))
      else set_status n.id NodeStatus.pending p

  unfoldable pub init_nodes : List RunEvent → List DagNode → Progress → Progress
  unfolding init_node
  init_nodes dag_events [] p = p
  init_nodes dag_events (n ∷ ns) p = init_nodes dag_events ns (init_node dag_events n p)

  abbrev kind_of : Option DagNode → Option NodeKind
  kind_of none = none
  kind_of (some n) = some n.kind

  unfoldable pub queue_nodes : NodeMap → List Text → M W (Unit {0})
  unfolding get
  queue_nodes by_id [] = pure tt
  queue_nodes by_id (id ∷ ids) = do
    emit services dag node_queued (record no_data {
      dag_id = some dag.dag_id;
      node_id = some id;
      kind = kind_of (get id by_id);
    })
    queue_nodes by_id ids

  abbrev no_progress : Progress
  no_progress = record { status = []; outputs = []; results = [] }

  abbrev DagResult : Type 0
  DagResult = Bool × List (Text × NodeResult)

  -- The events and the loop for a DAG that has not completed yet.
  unfoldable pub execute_fresh : List RunEvent → M W DagResult
  unfolding fingerprint_dag node_map sort stable_topological_order init_nodes is_succeeded
  execute_fresh dag_events = do
    emit services dag dag_planned (record no_data {
      dag_id = some dag.dag_id;
      node_count = some (length dag.nodes);
      rest =
          fields
            ((text "dag_fingerprint", str (fingerprint_dag services.sha256_hex dag.nodes)) ∷ []);
    })
    let by_id = node_map [] dag.nodes
    queue_nodes by_id (sort text_lt (keys by_id))
    ordered ← lift (stable_topological_order dag.nodes)
    p ← run_nodes dag_events ordered (init_nodes dag_events ordered no_progress)
    let all_ok = every (λ n. is_succeeded p n.id) ordered
    emit services dag dag_completed (record no_data { dag_id = some dag.dag_id; ok = some all_ok })
    pure (all_ok, p.results)

  abbrev start_seen : List RunEvent → M W (Unit {0})
  unfolding seen_keys
  start_seen dag_events s = (Outcome.ok tt, record s { seen = seen_keys [] dag_events })

  -- `Boolean(lastDagCompleted.data?.ok)`
  unfoldable pub after_completed : Option RunEvent → List RunEvent → M W DagResult
  unfolding seen_keys
  after_completed (some e) dag_events = pure (get_or e.payload.ok false, [])
  after_completed none dag_events = do start_seen dag_events; execute_fresh dag_events

  unfoldable pub last_dag_completed : List RunEvent → Option RunEvent
  unfolding is_type
  last_dag_completed dag_events = last (keep (λ e. is_type e.type dag_completed) dag_events)

  unfoldable pub execute_valid : M W DagResult
  unfolding events_for_dag last_dag_completed
  execute_valid = do
    existing_events ← list_by_run_id services dag.run_id
    let dag_events = events_for_dag dag.dag_id existing_events
    after_completed (last_dag_completed dag_events) dag_events

  abbrev is_schema_error : Option Text → Bool
  is_schema_error none = false
  is_schema_error (some c) = text_eq c (text "DAG_SCHEMA_INVALID")

  -- The catch block of the validation.
  unfoldable pub refuse : Thrown → M W DagResult
  refuse e = do
    let message = message_or e.message (text "DAG validation failed")
    let issues = if is_schema_error e.code then services.zod_issues dag else arr nil
    append_new services dag.run_id dag.chat_id validation_error
        (record no_data { message = some message; rest = fields ((text "issues", issues) ∷ []) })
    pure (
      false,
      (
        text "__dag__",
        record {
          ok = false;
          output = none;
          error = some (record {
            code = get_or e.code (text "DAG_INVALID");
            message = message;
            details = some (object ((text "issues", issues) ∷ []));
          });
        },
      )
          ∷ [],
    )

  abbrev validated : Outcome DagSpec → M W DagResult
  validated (Outcome.ok d) = execute_valid
  validated (Outcome.thrown e) = refuse e

  unfoldable pub execute_dag : M W DagResult
  unfolding validate_dag_spec_or_throw
  execute_dag = validated (validate_dag_spec_or_throw services.is_uuid services.is_datetime dag)
