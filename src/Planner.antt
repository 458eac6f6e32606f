-- ===== src/Planner.antt =====
-- The DAGs that are planned for a run: planDagForRun (packages/runtime/src/dag-executor.ts) and
-- packages/runtime/src/code-change.ts. `now` is the clock's `toISOString()`.
pub mod Valid
use cognitive_runtime.Prelude.{
  ℕ, Bool, none, some, Option, List, [], ◌∷◌, any, length, Text, text, includes,
}
use cognitive_runtime.Contracts.Json.{Json, num, str, object}
use cognitive_runtime.Contracts.Dag
use cognitive_runtime.Contracts.Dag.{NodeKind, DagNode, DagNodeRetry, DagSpec}

pub record PlanParams : Type 0 where
  pub run_id : Text
  pub chat_id : Text
  pub message : Text

abbrev once : DagNodeRetry
once = record { max_attempts = 1; backoff_ms = 0 }

abbrev twice : DagNodeRetry
twice = record { max_attempts = 2; backoff_ms = 500 }

abbrev node : Text → NodeKind → List Text → DagNodeRetry → Option Json → DagNode
node id kind depends_on retry input = record {
  id = id;
  kind = kind;
  depends_on = depends_on;
  retry = retry;
  input = input;
}

abbrev length_input : PlanParams → Option Json
length_input params = some (object ((text "message_len", num (length params.message)) ∷ []))

abbrev role_input : PlanParams → Option Json
role_input params = some (
    object
      ((text "role", str (text "user")) ∷ (text "content_len", num (length params.message)) ∷ []))

abbrev message_input : PlanParams → Option Json
message_input params = some (object ((text "message", str params.message) ∷ []))

abbrev spec : Text → PlanParams → List DagNode → DagSpec
spec now params nodes = record {
  dag_id = params.run_id;
  run_id = params.run_id;
  chat_id = params.chat_id;
  created_at = now;
  nodes = nodes;
}

unfoldable pub plan_dag_for_run : Text → PlanParams → DagSpec
plan_dag_for_run now params = spec now params (
    node (text "plan_dag") Dag.plan_dag [] once (length_input params)
    ∷ node (text "persist_user_message") Dag.persist_user_message (text "plan_dag" ∷ []) once
        (role_input params)
    ∷ node (text "llm_chat") Dag.llm_chat (text "persist_user_message" ∷ []) twice
        (message_input params)
    ∷ node (text "enforce_reply_constraints") Dag.enforce_reply_constraints (text "llm_chat" ∷ [])
        once none
    ∷ node (text "persist_assistant_message") Dag.persist_assistant_message
        (text "enforce_reply_constraints" ∷ []) once none
    ∷ [])

unfoldable pub plan_code_change_dag : Text → PlanParams → DagSpec
plan_code_change_dag now params = spec now params (
    node (text "plan_dag") Dag.plan_dag [] once (length_input params)
    ∷ node (text "persist_user_message") Dag.persist_user_message (text "plan_dag" ∷ []) once
        (role_input params)
    ∷ node (text "codebase_analyze") Dag.codebase_analyze (text "persist_user_message" ∷ []) once
        (message_input params)
    ∷ node (text "patch_plan") Dag.patch_plan (text "codebase_analyze" ∷ []) once none
    ∷ node (text "patch_apply_simulated") Dag.patch_apply_simulated (text "patch_plan" ∷ []) once
        none
    ∷ node (text "build_verify") Dag.build_verify (text "patch_apply_simulated" ∷ []) once none
    ∷ node (text "test_verify") Dag.test_verify (text "build_verify" ∷ []) once none
    ∷ node (text "patch_review") Dag.patch_review (text "test_verify" ∷ []) once none
    ∷ node (text "llm_chat") Dag.llm_chat (text "patch_review" ∷ []) twice (message_input params)
    ∷ node (text "enforce_reply_constraints") Dag.enforce_reply_constraints (text "llm_chat" ∷ [])
        once none
    ∷ node (text "persist_assistant_message") Dag.persist_assistant_message
        (text "enforce_reply_constraints" ∷ []) once none
    ∷ [])

abbrev code_change_keywords : List Text
code_change_keywords =
    text "refactor"
    ∷ text "fix bug"
    ∷ text "fix the bug"
    ∷ text "patch"
    ∷ text "code change"
    ∷ text "modify file"
    ∷ text "update code"
    ∷ text "change implementation"
    ∷ text "add function"
    ∷ text "remove function"
    ∷ text "rename"
    ∷ text "restructure"
    ∷ text "apply fix"
    ∷ text "code fix"
    ∷ text "implement feature"
    ∷ []

-- `to_lower_case` is `String.prototype.toLowerCase`.
unfoldable pub is_code_change_task : (to_lower_case : Text → Text) → Text → Bool
unfolding includes
is_code_change_task to_lower_case user_message =
    any (λ kw. includes (to_lower_case user_message) kw) code_change_keywords
