-- ===== src/Executor/Nodes.antt =====
-- What the nodes of a DAG work with: their context, outputs and results, and the lookups of runNode.
pub mod Handlers
pub mod Kinds
use cognitive_runtime.Prelude.{
  ℕ, ◌-◌, Bool, true, false, ◌&&◌, if◌then◌else◌, Option, none, some, List, [], ◌∷◌, ◌++◌, any,
  find, length, take, Text, text, text_eq,
}
use cognitive_runtime.Prelude.Maps.{get}
use cognitive_runtime.Contracts.Json.{Json, bool, num, str, arr, nil, cons, object, fields}
use cognitive_runtime.Contracts.Dag.{
  NodeKind, is_kind, DagNode, DagSpec, NodeResult, NodeError, llm_chat, enforce_reply_constraints,
}
use cognitive_runtime.Contracts.EventTypes.{
  RunEventType, llm_requested, llm_completed, reply_constraint_evaluated, codebase_analyzed,
  patch_plan_created, patch_simulation_applied, build_verified, tests_verified,
  patch_review_completed,
}
use cognitive_runtime.Contracts.Events.{EventData, no_data}
use cognitive_runtime.Uuid.{uuid_v5}
use cognitive_runtime.Executor.Outcome.{Outcome, Thrown}
use cognitive_runtime.Executor.Effects.{
  Services, M, ◌>>=◌, ◌>>◌, pure, lift, ask, ask_or_throw, try_catch, settle, Role, user, assistant,
}
use cognitive_runtime.Executor.Derive.{get_assistant_text, get_final_assistant_text}
use cognitive_runtime.Executor.Emit.{emit}
use cognitive_runtime.Executor.Prompt.{build_prompt_from_db, llama_completion, truncate_string}
use cognitive_runtime.Executor.Reply.{ReplyConstraintMatch}

pub record NodeExecContext : Type 0 where
  pub llama_url : Text
  pub message_id : Text
  pub message : Text
  pub history_limit : ℕ
  pub prompt_preamble : Text
  pub provider : Text
  pub model : Text

-- `Record<string, unknown>`: an entry may hold `undefined`.
abbrev pub Outputs : Type 0
Outputs = List (Text × Option Json)

abbrev flatten : Option (Option Json) → Option Json
flatten none = none
flatten (some o) = o

unfoldable pub output_of : Text → Outputs → Option Json
unfolding get
output_of id outputs = flatten (get id outputs)

abbrev pub max_output_store_chars : ℕ
max_output_store_chars = 20000

abbrev pub succeed : Option Json → NodeResult
succeed output = record { ok = true; output = output; error = none }

abbrev pub fail : Text → Text → NodeResult
fail code message = record {
  ok = false;
  output = none;
  error = some (record { code = code; message = message; details = none });
}

-- `e?.message ? String(e.message) : fallback`
abbrev pub message_or : Text → Text → Text
message_or [] fallback = fallback
message_or (c ∷ s) fallback = c ∷ s

abbrev pub text_field : Text → Option Text → List (Text × Json)
text_field k none = []
text_field k (some v) = (k, str v) ∷ []

-- createSandboxId (packages/runtime/src/code-change.ts)
unfoldable pub create_sandbox_id : Text → Text
create_sandbox_id run_id = text "sandbox-" ++ take 8 run_id

-- `dag.nodes.find((n) => n.kind === 'LLM_CHAT' && node.depends_on.includes(n.id)) ??
--  dag.nodes.find((n) => n.kind === 'LLM_CHAT')`
abbrev or_option : Option DagNode → Option DagNode → Option DagNode
or_option none d = d
or_option (some n) d = some n

unfoldable pub find_kind : NodeKind → List DagNode → Option DagNode
unfolding is_kind
find_kind kind nodes = find (λ n. is_kind n.kind kind) nodes

unfoldable pub find_llm_chat : List Text → List DagNode → Option DagNode
unfolding find_kind
find_llm_chat deps nodes =
    or_option (find (λ n. is_kind n.kind llm_chat && any (λ d. text_eq d n.id) deps) nodes)
      (find_kind llm_chat nodes)

abbrev or_text : Option Text → Option Text → Option Text
or_text none d = d
or_text (some t) d = some t

abbrev assistant_text_of : Option DagNode → Outputs → Option Text
unfolding output_of get_assistant_text
assistant_text_of none prior = none
assistant_text_of (some n) prior = get_assistant_text (output_of n.id prior)

abbrev final_text_of : Option DagNode → Outputs → Option Text
unfolding output_of get_final_assistant_text
final_text_of none prior = none
final_text_of (some n) prior = get_final_assistant_text (output_of n.id prior)

-- `rawAssistantText` of the node that enforces reply constraints.
unfoldable pub raw_assistant_text : DagSpec → DagNode → Outputs → Option Text
unfolding assistant_text_of find_llm_chat get_assistant_text
raw_assistant_text dag node prior =
    or_text (assistant_text_of (find_llm_chat node.depends_on dag.nodes) prior)
      (get_assistant_text node.input)

-- The text that the node which persists the answer stores.
unfoldable pub answer_text : DagSpec → Outputs → Option Text
unfolding assistant_text_of final_text_of find_kind
answer_text dag prior =
    or_text (final_text_of (find_kind enforce_reply_constraints dag.nodes) prior)
      (assistant_text_of (find_kind llm_chat dag.nodes) prior)
