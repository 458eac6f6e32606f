-- ===== src/Executor/Progress.antt =====
-- The maps of executeDag, and the limits and errors of a node.
use cognitive_runtime.Prelude.{
  ℕ, Bool, true, false, not, Option, none, some, List, [], ◌∷◌, ◌++◌, any, Text, text, decimal,
}
use cognitive_runtime.Prelude.Maps.{get, set}
use cognitive_runtime.Contracts.Json.{Json, arr, object, string_items}
use cognitive_runtime.Contracts.Dag.{NodeStatus, DagNode, NodeResult, NodeError}
use cognitive_runtime.Executor.Prompt.{clamp_int}
use cognitive_runtime.Executor.Nodes.{Outputs, fail}

-- The maps `status`, `outputs` and `results`.
pub record Progress : Type 0 where
  pub status : List (Text × NodeStatus)
  pub outputs : Outputs
  pub results : List (Text × NodeResult)

abbrev succeeded_status : Option NodeStatus → Bool
succeeded_status (some NodeStatus.succeeded) = true
succeeded_status _ = false

-- `status.get(id) === 'SUCCEEDED'`
unfoldable pub is_succeeded : Progress → Text → Bool
unfolding get
is_succeeded p id = succeeded_status (get id p.status)

abbrev pub set_status : Text → NodeStatus → Progress → Progress
unfolding set
set_status id s p = record p { status = set id s p.status }

abbrev pub set_result : Text → NodeResult → Progress → Progress
unfolding set
set_result id r p = record p { results = set id r p.results }

abbrev pub set_output : Text → Option Json → Progress → Progress
unfolding set
set_output id o p = record p { outputs = set id o p.outputs }

abbrev pub error_code : Option NodeError → Text → Text
error_code none fallback = fallback
error_code (some e) fallback = e.code

abbrev pub error_message : Option NodeError → Text → Text
error_message none fallback = fallback
error_message (some e) fallback = e.message

abbrev pub max_attempts_of : DagNode → ℕ
max_attempts_of n = clamp_int n.retry.max_attempts 1 2

abbrev pub backoff_of : DagNode → ℕ
backoff_of n = clamp_int n.retry.backoff_ms 0 60000

abbrev pub skipped_result : DagNode → NodeResult
skipped_result n = record {
  ok = false;
  output = none;
  error = some (record {
    code = text "NODE_SKIPPED";
    message = text "Skipped because a dependency did not succeed.";
    details = some (object ((text "depends_on", arr (string_items n.depends_on)) ∷ []));
  });
}

abbrev pub exhausted_result : DagNode → NodeResult
unfolding decimal
exhausted_result n =
    fail (text "NODE_ATTEMPTS_EXHAUSTED")
      (text "Attempts exhausted (" ++ (decimal (max_attempts_of n) ++ text ")."))

-- `deps.some((d) => status.get(d) !== 'SUCCEEDED')`
unfoldable pub dep_failed : Progress → DagNode → Bool
unfolding is_succeeded
dep_failed p n = any (λ d. not (is_succeeded p d)) n.depends_on
