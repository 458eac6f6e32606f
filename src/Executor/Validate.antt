-- ===== src/Executor/Validate.antt =====
-- validateDagSpecOrThrow.
use cognitive_runtime.Prelude.{Bool, if◌then◌else◌, none, some, List, [], ◌∷◌, ◌++◌, Text, text}
use cognitive_runtime.Prelude.Maps.{has_text, set}
use cognitive_runtime.Contracts.Dag.{DagNode, DagSpec, z_dag_spec}
use cognitive_runtime.Executor.Outcome.{Outcome, ok, thrown, Thrown, ◌>>◌}
use cognitive_runtime.Executor.Order.{NodeMap, check_all_deps, stable_topological_order}

abbrev coded : Text → Text → Thrown
coded code message = record { name = none; code = some code; message = message }

-- The loop over `ids`, a set that grows as the nodes are read.
unfoldable pub check_ids : List Text → List DagNode → Outcome (Unit {0})
unfolding has_text
check_ids ids [] = ok tt
check_ids ids (n ∷ ns) =
    let rest = check_ids (ids ++ n.id ∷ []) ns in
    if has_text n.id ids
    then thrown
        (coded (text "DAG_DUPLICATE_NODE_ID") (text "DAG_INVALID: duplicate node id: " ++ n.id))
    else rest

-- `new Map(nodes.map((n) => [n.id, n]))`
unfoldable pub node_map : NodeMap → List DagNode → NodeMap
unfolding set
node_map m [] = m
node_map m (n ∷ ns) = node_map (set n.id n m) ns

-- The same error with the code DAG_MISSING_DEP, as this loop throws it.
abbrev pub missing_dep : Outcome (Unit {0}) → Outcome (Unit {0})
missing_dep (ok u) = ok u
missing_dep (thrown e) = thrown (coded (text "DAG_MISSING_DEP") e.message)

module _ (is_uuid is_datetime : Text → Bool) where
  abbrev pub check_schema : DagSpec → Outcome (Unit {0})
  unfolding z_dag_spec
  check_schema dag =
      if z_dag_spec is_uuid is_datetime dag
      then ok tt
      else thrown (
          coded (text "DAG_SCHEMA_INVALID") (text "DAG_INVALID: dag spec failed schema validation"))

  unfoldable pub validate_dag_spec_or_throw : DagSpec → Outcome DagSpec
  unfolding z_dag_spec check_ids node_map check_all_deps stable_topological_order
  validate_dag_spec_or_throw dag = do
    check_schema dag
    check_ids [] dag.nodes
    missing_dep (check_all_deps (node_map [] dag.nodes) dag.nodes)
    stable_topological_order dag.nodes
    ok dag
