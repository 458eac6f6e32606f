-- ===== src/Executor/Traversal/NodeKinds.antt =====
-- The walk over runNode.
use cognitive_runtime.Prelude.{
  ℕ, ◌≡◌, refl, true, false, Option, none, some, List, [], ◌∷◌, Text, text, ◌||◌,
}
use cognitive_runtime.Contracts.Json.{Json}
use cognitive_runtime.Contracts.Dag
use cognitive_runtime.Contracts.Dag.{DagNode, DagSpec, NodeResult, NodeKind}
use cognitive_runtime.Contracts.EventTypes.{RunEventType, is_type, node_started}
use cognitive_runtime.Contracts.EventTypes
use cognitive_runtime.Contracts.Events.{EventData}
use cognitive_runtime.Executor.Outcome.{Outcome, ok, thrown, Thrown}
use cognitive_runtime.Executor.Effects.{Services, State, Role, Fetched, failed_fetch, response}
use cognitive_runtime.Executor.Emit.{emit}
use cognitive_runtime.Executor.Prompt.{
  build_prompt_from_db, llama_completion, completion_of, rethrow, is_timeout_error, is_some_text,
}
use cognitive_runtime.Executor.Nodes.{NodeExecContext, Outputs}
use cognitive_runtime.Executor.Nodes.Handlers.{
  persist, complete, completion_failed, request_completion, after_prompt, run_llm_chat, enforced,
  run_enforce, run_persist_assistant,
}
use cognitive_runtime.Executor.Nodes.Kinds.{run_simulated, run_kind, run_node}
use cognitive_runtime.Executor.Respects.{
  lift-Respects, ask-Respects, ask_or_throw-Respects, if-Respects, Respects, bind-Respects,
  try_catch-Respects, settle-Respects,
}
use cognitive_runtime.Executor.Traversal.{IsRule, is_emitted}

module _ {W : Type 0} (services : Services W) (ctx : NodeExecContext) (dag : DagSpec)
    (R : State W → State W → Type 0) (rule : IsRule services dag R) where
  open rule use {stable, emits}

  rethrow-Respects : (e : Thrown) → Respects R (rethrow services e)
  unfolding rethrow
  rethrow-Respects e =
      if-Respects stable (is_some_text e.name (text "AbortError") || is_timeout_error e)
        (lift-Respects stable _) (lift-Respects stable _)

  completion_of-Respects : (answer : Fetched) → Respects R (completion_of services answer)
  unfolding completion_of
  completion_of-Respects (failed_fetch e) = rethrow-Respects e
  completion_of-Respects (response false a b c) = rethrow-Respects _
  completion_of-Respects (response true a b none) = rethrow-Respects _
  completion_of-Respects (response true a b (some [])) = rethrow-Respects _
  completion_of-Respects (response true a b (some (c ∷ s))) = lift-Respects stable _

  llama_completion-Respects :
      (url prompt : Text) → Respects R (llama_completion services url prompt)
  unfolding llama_completion
  llama_completion-Respects url prompt =
      bind-Respects stable (ask-Respects stable (services.fetch url prompt)) completion_of-Respects

  build_prompt-Respects :
      (chat_id : Text) (limit : ℕ) (preamble current : Text)
      → Respects R (build_prompt_from_db services chat_id limit preamble current)
  unfolding build_prompt_from_db
  build_prompt-Respects chat_id limit preamble current =
      bind-Respects stable (ask_or_throw-Respects stable _) (λ m. lift-Respects stable _)

  -- An event of another type than NODE_STARTED.
  pub emits_other :
      (type : RunEventType) (d : EventData)
      → is_emitted type ≡ true
      → is_type type node_started ≡ false
      → Respects R (emit services dag type d)
  emits_other type d emitted e = emits type d emitted (λ h. cc)

  module _ (node : DagNode) (attempt : ℕ) (prior : Outputs) where
    persist-Respects :
        (role : Role) (name content : Text)
        → Respects R (persist services ctx dag node attempt prior role name content)
    unfolding persist
    persist-Respects role name content =
        bind-Respects stable (lift-Respects stable _)
          λ id. bind-Respects stable (ask_or_throw-Respects stable _) (λ m. lift-Respects stable _)

    complete-Respects :
        (prompt : Text) → Respects R (complete services ctx dag node attempt prior prompt)
    unfolding complete is_type
    complete-Respects prompt = bind-Respects stable (ask-Respects stable _) λ started.
        bind-Respects stable (llama_completion-Respects ctx.llama_url prompt) λ answer.
          bind-Respects stable (ask-Respects stable _) λ completed.
            bind-Respects stable (emits_other EventTypes.llm_completed _ refl refl)
              (λ u. lift-Respects stable _)

    request-Respects :
        (prompt : Text) → Respects R (request_completion services ctx dag node attempt prior prompt)
    unfolding request_completion completion_failed is_type
    request-Respects prompt =
        bind-Respects stable (emits_other EventTypes.llm_requested _ refl refl)
          λ u. try_catch-Respects stable (complete-Respects prompt) (λ e. lift-Respects stable _)

    after_prompt-Respects :
        (o : Outcome Text) → Respects R (after_prompt services ctx dag node attempt prior o)
    after_prompt-Respects (ok prompt) = request-Respects prompt
    after_prompt-Respects (thrown e) = lift-Respects stable _

    run_llm_chat-Respects : Respects R (run_llm_chat services ctx dag node attempt prior)
    unfolding run_llm_chat
    run_llm_chat-Respects =
        settle-Respects stable (build_prompt-Respects dag.chat_id ctx.history_limit _ _)
          λ o. after_prompt-Respects o

    enforced-Respects : (raw : Text) → Respects R (enforced services ctx dag node attempt prior raw)
    unfolding enforced is_type
    enforced-Respects raw =
        bind-Respects stable (emits_other EventTypes.reply_constraint_evaluated _ refl refl)
          (λ u. lift-Respects stable _)

    run_enforce-Respects :
        (raw : Option Text) → Respects R (run_enforce services ctx dag node attempt prior raw)
    unfolding run_enforce
    run_enforce-Respects none = lift-Respects stable _
    run_enforce-Respects (some raw) = enforced-Respects raw

    run_persist-Respects :
        (content : Option Text)
        → Respects R (run_persist_assistant services ctx dag node attempt prior content)
    unfolding run_persist_assistant
    run_persist-Respects none = lift-Respects stable _
    run_persist-Respects (some content) = persist-Respects _ _ content

    simulated-Respects :
        (type : RunEventType) (event output : List (Text × Json))
        → is_emitted type ≡ true
        → is_type type node_started ≡ false
        → Respects R (run_simulated services ctx dag node attempt prior type event output)
    unfolding run_simulated
    simulated-Respects type event output emitted e =
        bind-Respects stable (emits_other type _ emitted e) (λ u. lift-Respects stable _)

    run_kind-Respects :
        (kind : NodeKind) → Respects R (run_kind services ctx dag node attempt prior kind)
    unfolding run_kind is_type
    run_kind-Respects Dag.noop = lift-Respects stable _
    run_kind-Respects Dag.plan_dag = lift-Respects stable _
    run_kind-Respects Dag.persist_user_message = persist-Respects _ _ _
    run_kind-Respects Dag.llm_chat = run_llm_chat-Respects
    run_kind-Respects Dag.enforce_reply_constraints = run_enforce-Respects _
    run_kind-Respects Dag.persist_assistant_message = run_persist-Respects _
    run_kind-Respects Dag.codebase_analyze =
        simulated-Respects EventTypes.codebase_analyzed _ _ refl refl
    run_kind-Respects Dag.patch_plan =
        simulated-Respects EventTypes.patch_plan_created _ _ refl refl
    run_kind-Respects Dag.patch_apply_simulated =
        simulated-Respects EventTypes.patch_simulation_applied _ _ refl refl
    run_kind-Respects Dag.build_verify = simulated-Respects EventTypes.build_verified _ _ refl refl
    run_kind-Respects Dag.test_verify = simulated-Respects EventTypes.tests_verified _ _ refl refl
    run_kind-Respects Dag.patch_review =
        simulated-Respects EventTypes.patch_review_completed _ _ refl refl

    pub run_node-Respects : Respects R (run_node services ctx dag node attempt prior)
    unfolding run_node
    run_node-Respects = run_kind-Respects node.kind
