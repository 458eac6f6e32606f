-- ===== src/Executor/Nodes/Handlers.antt =====
-- The branches of runNode that store messages, call the model and enforce reply constraints.
use cognitive_runtime.Prelude.{
  ℕ, ◌-◌, Bool, false, if◌then◌else◌, Option, none, some, [], ◌∷◌, ◌++◌, length, take, Text, text,
  text_eq,
}
use cognitive_runtime.Contracts.Json.{bool, num, str, object, fields}
use cognitive_runtime.Contracts.Dag.{DagNode, DagSpec, NodeResult}
use cognitive_runtime.Contracts.EventTypes.{
  llm_requested, llm_completed, reply_constraint_evaluated,
}
use cognitive_runtime.Contracts.Events.{EventData, no_data}
use cognitive_runtime.Uuid.{uuid_v5}
use cognitive_runtime.Executor.Outcome.{Outcome, Thrown}
use cognitive_runtime.Executor.Effects.{
  Services, M, ◌>>=◌, ◌>>◌, pure, lift, ask, ask_or_throw, try_catch, settle, Role, assistant,
}
use cognitive_runtime.Executor.Emit.{emit}
use cognitive_runtime.Executor.Prompt.{build_prompt_from_db, llama_completion, truncate_string}
use cognitive_runtime.Executor.Reply.{ReplyConstraintMatch}
use cognitive_runtime.Executor.Reply
use cognitive_runtime.Executor.Nodes.{
  NodeExecContext, Outputs, succeed, fail, message_or, max_output_store_chars, text_field,
}

module _ {W : Type 0} (services : Services W) (ctx : NodeExecContext) (dag : DagSpec)
    (node : DagNode) (attempt : ℕ) (prior : Outputs) where
  open services use {date_now, insert_message, sha1, utf8, match}

  abbrev node_data : EventData
  node_data = record no_data {
    dag_id = some dag.dag_id;
    node_id = some node.id;
    attempt = some attempt;
  }

  -- The branches that persist a message differ in the role and the content.
  unfoldable pub persist : Role → Text → Text → M W NodeResult
  unfolding uuid_v5
  persist role role_name content = do
    let name =
        text "message:" ++ (dag.chat_id ++ (text ":" ++ (node.id ++ (text ":" ++ role_name))))
    id ← lift (uuid_v5 sha1 utf8 dag.run_id name)
    message_id ←
        ask_or_throw (
          insert_message
            (record { id = id; chat_id = dag.chat_id; role = role; content = content }))
    pure (succeed (some (object ((text "message_id", str message_id) ∷ []))))

  -- The `try` block around the completion.
  unfoldable pub complete : Text → M W NodeResult
  unfolding truncate_string
  complete prompt = do
    started_at ← ask date_now
    assistant_text ← llama_completion services ctx.llama_url prompt
    completed_at ← ask date_now
    emit services dag llm_completed (record node_data {
      latency_ms = some (completed_at - started_at);
      rest = fields ((text "output_len", num (length assistant_text)) ∷ []);
    })
    pure (
        succeed (
          some (
            object (
              (text "assistant_text", str (truncate_string assistant_text max_output_store_chars))
              ∷ []))))

  abbrev is_llama_timeout : Option Text → Bool
  is_llama_timeout none = false
  is_llama_timeout (some c) = text_eq c (text "LLAMA_TIMEOUT")

  unfoldable pub completion_failed : Thrown → M W NodeResult
  completion_failed e = pure (
      fail (if is_llama_timeout e.code then text "LLAMA_TIMEOUT" else text "LLAMA_ERROR")
        (message_or e.message (text "llama completion failed")))

  unfoldable pub request_completion : Text → M W NodeResult
  request_completion prompt = do
    emit services dag llm_requested (record node_data {
      rest = fields (
          (text "provider", str ctx.provider)
          ∷ (text "model", str ctx.model)
          ∷ (text "prompt_tokens_est", num (length prompt))
          ∷ []);
    })
    try_catch (complete prompt) completion_failed

  abbrev pub after_prompt : Outcome Text → M W NodeResult
  after_prompt (Outcome.ok prompt) = request_completion prompt
  after_prompt (Outcome.thrown e) =
      pure
        (fail (text "HISTORY_LOAD_FAILED") (message_or e.message (text "Failed to load history")))

  unfoldable pub run_llm_chat : M W NodeResult
  run_llm_chat =
      settle
        (build_prompt_from_db services dag.chat_id ctx.history_limit ctx.prompt_preamble
          ctx.message)
        after_prompt

  unfoldable pub enforced : Text → M W NodeResult
  unfolding truncate_string Reply.enforce_reply_constraints
  enforced raw = do
    let r = Reply.enforce_reply_constraints match ctx.message raw
    emit services dag reply_constraint_evaluated (record node_data {
      rest = fields (
          ((text "forced_reply", bool r.forced_reply) ∷ [])
          ++ (text_field (text "forced_reply_value") r.forced_reply_value
              ++ (text_field (text "matched_pattern") r.matched_pattern
                  ++ ((text "raw_assistant_text", str raw)
                      ∷ (text "final_assistant_text", str r.final_assistant_text)
                      ∷ (text "user_instruction", str (take 2000 ctx.message))
                      ∷ []))));
    })
    pure (
        succeed (
          some (
            object (
              ((text "forced_reply", bool r.forced_reply) ∷ [])
              ++ (text_field (text "forced_reply_value") r.forced_reply_value
                  ++ (text_field (text "matched_pattern") r.matched_pattern
                      ++ ((
                        text "raw_assistant_text",
                        str (truncate_string raw max_output_store_chars),
                      )
                          ∷ (
                            text "final_assistant_text",
                            str (truncate_string r.final_assistant_text max_output_store_chars),
                          )
                          ∷ [])))))))

  unfoldable pub run_enforce : Option Text → M W NodeResult
  run_enforce none =
      pure (fail (text "MISSING_LLM_OUTPUT") (text "No assistant_text found from llm_chat output."))
  run_enforce (some raw) = enforced raw

  unfoldable pub run_persist_assistant : Option Text → M W NodeResult
  run_persist_assistant none = pure (
      fail (text "MISSING_ASSISTANT_OUTPUT")
        (text "No assistant output found from enforce_reply_constraints or llm_chat."))
  run_persist_assistant (some content) = persist assistant (text "assistant") content
