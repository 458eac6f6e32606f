-- ===== src/Contracts/Dag.antt =====
-- DAG specifications, node kinds and statuses (packages/contracts/src/dag.ts).
use cognitive_runtime.Prelude.{ℕ, Bool, ◌&&◌, ◌==◌, leb, Option, List, Text, text, length, every}
use cognitive_runtime.Contracts.Json.{Json}

pub data NodeKind : Type 0 where
  noop plan_dag persist_user_message llm_chat enforce_reply_constraints : NodeKind
  persist_assistant_message codebase_analyze patch_plan patch_apply_simulated : NodeKind
  build_verify test_verify patch_review : NodeKind

unfoldable pub kind_index : NodeKind → ℕ
kind_index noop = 0
kind_index plan_dag = 1
kind_index persist_user_message = 2
kind_index llm_chat = 3
kind_index enforce_reply_constraints = 4
kind_index persist_assistant_message = 5
kind_index codebase_analyze = 6
kind_index patch_plan = 7
kind_index patch_apply_simulated = 8
kind_index build_verify = 9
kind_index test_verify = 10
kind_index patch_review = 11

-- `===` on node kinds.
unfoldable pub is_kind : NodeKind → NodeKind → Bool
unfolding kind_index
is_kind a b = kind_index a == kind_index b

pub data NodeStatus : Type 0 where
  pending running succeeded failed skipped : NodeStatus

pub data RunStatus : Type 0 where
  created queued running succeeded failed cancelled : RunStatus

pub record DagNodeRetry : Type 0 where
  pub max_attempts : ℕ
  pub backoff_ms : ℕ

pub record DagNode : Type 0 where
  pub id : Text
  pub kind : NodeKind
  pub depends_on : List Text
  pub retry : DagNodeRetry
  pub input : Option Json

pub record DagSpec : Type 0 where
  pub dag_id : Text
  pub run_id : Text
  pub chat_id : Text
  pub created_at : Text
  pub nodes : List DagNode

pub record NodeError : Type 0 where
  pub code : Text
  pub message : Text
  pub details : Option Json

pub record NodeResult : Type 0 where
  pub ok : Bool
  pub output : Option Json
  pub error : Option NodeError

-- `z.string().min(1)`
abbrev pub min_one : Text → Bool
min_one s = leb 1 (length s)

unfoldable pub z_dag_node_retry : DagNodeRetry → Bool
z_dag_node_retry r = leb 1 r.max_attempts && leb r.max_attempts 2

unfoldable pub z_dag_node : DagNode → Bool
unfolding z_dag_node_retry
z_dag_node n = min_one n.id && (every min_one n.depends_on && z_dag_node_retry n.retry)

-- zDagSpec, with zod's formats `uuid` and `datetime` as parameters.
unfoldable pub z_dag_spec : (is_uuid is_datetime : Text → Bool) → DagSpec → Bool
unfolding z_dag_node
z_dag_spec is_uuid is_datetime d =
    is_uuid d.dag_id
    && (is_uuid d.run_id
        && (is_uuid d.chat_id
            && (is_datetime d.created_at && (leb 1 (length d.nodes) && every z_dag_node d.nodes))))

-- The string that a kind is.
unfoldable pub kind_name : NodeKind → Text
kind_name noop = text "NOOP"
kind_name plan_dag = text "PLAN_DAG"
kind_name persist_user_message = text "PERSIST_USER_MESSAGE"
kind_name llm_chat = text "LLM_CHAT"
kind_name enforce_reply_constraints = text "ENFORCE_REPLY_CONSTRAINTS"
kind_name persist_assistant_message = text "PERSIST_ASSISTANT_MESSAGE"
kind_name codebase_analyze = text "CODEBASE_ANALYZE"
kind_name patch_plan = text "PATCH_PLAN"
kind_name patch_apply_simulated = text "PATCH_APPLY_SIMULATED"
kind_name build_verify = text "BUILD_VERIFY"
kind_name test_verify = text "TEST_VERIFY"
kind_name patch_review = text "PATCH_REVIEW"
