-- ===== src/Planner/Valid.antt =====
-- The planned DAGs pass the validation of the executor.
use cognitive_runtime.Prelude.{◌≡◌, refl, Bool, true, [], Text, text_eq, text_lt}
use cognitive_runtime.Contracts.Dag.{DagSpec, z_dag_spec}
use cognitive_runtime.Executor.Outcome.{ok}
use cognitive_runtime.Executor.Order.{check_all_deps, stable_topological_order}
use cognitive_runtime.Executor.Validate.{check_ids, node_map, validate_dag_spec_or_throw}
use cognitive_runtime.Planner.{PlanParams, plan_dag_for_run, plan_code_change_dag}

-- The executor accepts a DAG, and runs its nodes in the order in which they are written.
pub record IsAccepted (is_uuid is_datetime : Text → Bool) (dag : DagSpec) : Type 0 where
  pub valid : validate_dag_spec_or_throw is_uuid is_datetime dag ≡ ok dag
  pub order : stable_topological_order dag.nodes ≡ ok dag.nodes

-- The four checks of the validation, each passed.
record Passes (is_uuid is_datetime : Text → Bool) (dag : DagSpec) : Type 0 where
  schema : z_dag_spec is_uuid is_datetime dag ≡ true
  ids : check_ids [] dag.nodes ≡ ok tt
  deps : check_all_deps (node_map [] dag.nodes) dag.nodes ≡ ok tt
  order : stable_topological_order dag.nodes ≡ ok dag.nodes

Passes-IsAccepted :
    (is_uuid is_datetime : Text → Bool) (dag : DagSpec)
    → Passes is_uuid is_datetime dag
    → IsAccepted is_uuid is_datetime dag
unfolding validate_dag_spec_or_throw
Passes-IsAccepted is_uuid is_datetime dag p = record {
  valid = rw (p.schema, p.ids, p.deps, p.order) refl;
  order = p.order;
}

-- If the ids of the run and of the chat are UUIDs and the clock's string is a datetime, then the
-- executor accepts the chat DAG of every message, and runs its nodes as they are written.
pub plan_dag_for_run-IsAccepted :
    (is_uuid is_datetime : Text → Bool) (now : Text) (params : PlanParams)
    → is_uuid params.run_id ≡ true
    → is_uuid params.chat_id ≡ true
    → is_datetime now ≡ true
    → IsAccepted is_uuid is_datetime (plan_dag_for_run now params)
unfolding plan_dag_for_run z_dag_spec stable_topological_order check_ids node_map text_eq text_lt
plan_dag_for_run-IsAccepted is_uuid is_datetime now params run chat date =
    Passes-IsAccepted is_uuid is_datetime (plan_dag_for_run now params)
      (record { schema = rw (run, chat, date) refl; ids = refl; deps = refl; order = refl })

-- If the ids of the run and of the chat are UUIDs and the clock's string is a datetime, then the
-- executor accepts the code-change DAG of every message, and runs its nodes as they are written.
pub plan_code_change_dag-IsAccepted :
    (is_uuid is_datetime : Text → Bool) (now : Text) (params : PlanParams)
    → is_uuid params.run_id ≡ true
    → is_uuid params.chat_id ≡ true
    → is_datetime now ≡ true
    → IsAccepted is_uuid is_datetime (plan_code_change_dag now params)
unfolding plan_code_change_dag z_dag_spec stable_topological_order check_ids node_map text_eq
    text_lt
plan_code_change_dag-IsAccepted is_uuid is_datetime now params run chat date =
    Passes-IsAccepted is_uuid is_datetime (plan_code_change_dag now params)
      (record { schema = rw (run, chat, date) refl; ids = refl; deps = refl; order = refl })
