-- ===== src/Executor/Tests.antt =====
-- Runs of the executor on small DAGs, with services whose world is a number.
use cognitive_runtime.Prelude.{
  ℕ, ◌+◌, ◌≡◌, refl, true, Option, none, some, List, [], ◌∷◌, length, map, Text, text, text_eq,
  text_lt,
}
use cognitive_runtime.Contracts.Json.{Json}
use cognitive_runtime.Contracts.Dag
use cognitive_runtime.Contracts.Dag.{NodeKind, DagNode, DagSpec}
use cognitive_runtime.Contracts.EventTypes
use cognitive_runtime.Contracts.Events.{RunEvent}
use cognitive_runtime.Executor.Outcome.{Outcome}
use cognitive_runtime.Executor.Effects.{
  Services, State, response, and_then, caught, handed, ask, ask_or_throw, append, append_new,
  list_by_run_id,
}
use cognitive_runtime.Executor.Nodes.{NodeExecContext}
use cognitive_runtime.Executor.Nodes.Handlers.{
  persist, complete, completion_failed, request_completion, run_llm_chat, enforced, run_enforce,
  run_persist_assistant,
}
use cognitive_runtime.Executor.Nodes.Kinds.{run_simulated, run_kind, run_node}
use cognitive_runtime.Executor.Run.{
  execute_dag, run_nodes, queue_nodes, execute_fresh, after_completed, execute_valid, refuse,
}
use cognitive_runtime.Executor.Attempts.{
  after_success, after_failure, retry, run_attempt, attempt_loop, skip_node, start_node,
}
use cognitive_runtime.Executor.Emit.{emit}
use cognitive_runtime.Executor.Prompt.{
  build_prompt_from_db, llama_completion, completion_of, rethrow,
}

abbrev pub node : Text → NodeKind → List Text → DagNode
node id kind deps = record {
  id = id;
  kind = kind;
  depends_on = deps;
  retry = record { max_attempts = 2; backoff_ms = 500 };
  input = none;
}

abbrev pub dag_of : List DagNode → DagSpec
dag_of nodes = record {
  dag_id = text "d";
  run_id = text "00000000-0000-0000-0000-000000000001";
  chat_id = text "c";
  created_at = text "t";
  nodes = nodes;
}

-- The clock ticks, the store accepts every event, and the model answers the given text.
abbrev pub services_of : Option Text → Services ℕ
services_of answer = record {
  is_uuid = λ t. true;
  is_datetime = λ t. true;
  zod_issues = λ d. Json.null;
  rejects = λ e w. none;
  list_fails = λ t w. none;
  iso_now = λ w. (text "now", w + 1);
  date_now = λ w. (w, w + 1);
  sleep = λ ms w. w + ms;
  insert_message = λ m w. (Outcome.ok m.id, w + 1);
  list_recent = λ chat n w. (Outcome.ok [], w);
  fetch = λ url prompt w. (response true (text "200") (text "OK") answer, w + 1);
  match = λ p t. none;
  stringify = λ v. [];
  byte_length = λ t. length t;
  sha1 = λ bytes. 1 ∷ 2 ∷ 3 ∷ 4 ∷ 5 ∷ 6 ∷ 7 ∷ 8 ∷ 9 ∷ 10 ∷ 11 ∷ 12 ∷ 13 ∷ 14 ∷ 15 ∷ 16 ∷ [];
  sha256_hex = λ t. text "0123456789abcdef0123";
  utf8 = λ t. t;
}

abbrev pub context : NodeExecContext
context = record {
  llama_url = text "u";
  message_id = text "m";
  message = text "hi";
  history_limit = 6;
  prompt_preamble = [];
  provider = text "qwen";
  model = text "q";
}

abbrev pub empty_state : State ℕ
empty_state = record { log = []; seen = []; world = 0 }

abbrev pub chat_dag : DagSpec
chat_dag = dag_of (
    node (text "b") Dag.llm_chat (text "a" ∷ [])
    ∷ node (text "c") Dag.persist_assistant_message (text "b" ∷ [])
    ∷ node (text "a") Dag.plan_dag []
    ∷ [])

abbrev types_of : List RunEvent → List EventTypes.RunEventType
types_of events = map (λ e. e.type) events

-- All that a run computes with.
program : Unit {0}
unfolding execute_dag text_eq text_lt emit append_new append complete completion_failed
    request_completion build_prompt_from_db llama_completion completion_of rethrow persist
    run_llm_chat run_enforce enforced run_persist_assistant run_simulated run_kind run_node
    after_success after_failure retry run_attempt attempt_loop skip_node start_node run_nodes
    queue_nodes execute_fresh after_completed list_by_run_id execute_valid refuse and_then caught
    handed ask ask_or_throw
program = tt

chat_run :
    types_of (execute_dag (services_of (some (text "hello"))) context chat_dag empty_state).1.log
    ≡ EventTypes.dag_planned ∷ EventTypes.node_queued ∷ EventTypes.node_queued
      ∷ EventTypes.node_queued ∷ EventTypes.node_started ∷ EventTypes.node_succeeded
      ∷ EventTypes.node_started ∷ EventTypes.llm_requested ∷ EventTypes.llm_completed
      ∷ EventTypes.node_succeeded ∷ EventTypes.node_started ∷ EventTypes.node_succeeded
      ∷ EventTypes.dag_completed ∷ []
unfolding program
chat_run = refl

-- The model answers nothing: the node is retried once, and the DAG fails.
failed_run :
    types_of (execute_dag (services_of none) context chat_dag empty_state).1.log
    ≡ EventTypes.dag_planned ∷ EventTypes.node_queued ∷ EventTypes.node_queued
      ∷ EventTypes.node_queued ∷ EventTypes.node_started ∷ EventTypes.node_succeeded
      ∷ EventTypes.node_started ∷ EventTypes.llm_requested ∷ EventTypes.node_failed
      ∷ EventTypes.node_retry_scheduled ∷ EventTypes.node_started ∷ EventTypes.llm_requested
      ∷ EventTypes.node_failed ∷ EventTypes.dag_completed ∷ []
unfolding program
failed_run = refl
