-- ===== src/Executor/Nodes/Kinds.antt =====
-- runNode: the branch of each kind of node.
use cognitive_runtime.Prelude.{ℕ, true, none, some, List, [], ◌∷◌, ◌++◌, take, Text, text}
use cognitive_runtime.Contracts.Json.{Json, bool, num, str, arr, nil, cons, object, fields}
use cognitive_runtime.Contracts.Dag
use cognitive_runtime.Contracts.Dag.{
  NodeKind, is_kind, DagNode, DagSpec, NodeResult, NodeError, llm_chat, enforce_reply_constraints,
}
use cognitive_runtime.Contracts.EventTypes.{
  RunEventType, codebase_analyzed, patch_plan_created, patch_simulation_applied, build_verified,
  tests_verified, patch_review_completed,
}
use cognitive_runtime.Contracts.Events.{no_data}
use cognitive_runtime.Executor.Effects.{Services, M, ◌>>◌, pure, user}
use cognitive_runtime.Executor.Emit.{emit}
use cognitive_runtime.Executor.Nodes.{
  NodeExecContext, Outputs, succeed, raw_assistant_text, answer_text, create_sandbox_id,
}
use cognitive_runtime.Executor.Nodes.Handlers.{
  persist, run_llm_chat, run_enforce, run_persist_assistant,
}

module _ {W : Type 0} (services : Services W) (ctx : NodeExecContext) (dag : DagSpec)
    (node : DagNode) (attempt : ℕ) (prior : Outputs) where
  -- The simulated steps of a code change: one event without node members, and an output.
  unfoldable pub run_simulated :
      RunEventType → List (Text × Json) → List (Text × Json) → M W NodeResult
  run_simulated type event output = do
    emit services dag type (record no_data { rest = fields event })
    pure (succeed (some (object (output ++ (text "simulated", bool true) ∷ []))))

  abbrev analysis_summary : Text
  analysis_summary = text "Simulated analysis of codebase for task: " ++ take 200 ctx.message

  abbrev simulated_patch : Json
  simulated_patch = object (
      (text "file_path", str (text "(simulated)"))
      ∷ (text "operation", str (text "MODIFY"))
      ∷ (text "diff_summary", str (text "Simulated patch plan"))
      ∷ (text "line_count", num 0)
      ∷ [])

  abbrev verification : List (Text × Json) → Text → Json
  verification counts tail = object (
      ((text "passed", bool true) ∷ (text "exit_code", num 0) ∷ (text "duration_ms", num 0) ∷ [])
      ++ (counts ++ (text "stdout_tail", str tail) ∷ []))

  unfoldable pub run_kind : NodeKind → M W NodeResult
  unfolding raw_assistant_text answer_text create_sandbox_id
  run_kind Dag.noop = pure (succeed none)
  run_kind Dag.plan_dag = pure (succeed (some (object ((text "planned", bool true) ∷ []))))
  run_kind Dag.persist_user_message =
      persist services ctx dag node attempt prior user (text "user") ctx.message
  run_kind Dag.llm_chat = run_llm_chat services ctx dag node attempt prior
  run_kind Dag.enforce_reply_constraints =
      run_enforce services ctx dag node attempt prior (raw_assistant_text dag node prior)
  run_kind Dag.persist_assistant_message =
      run_persist_assistant services ctx dag node attempt prior (answer_text dag prior)
  run_kind Dag.codebase_analyze =
      run_simulated codebase_analyzed
        ((text "target_files", arr (cons (str (text "(simulated)")) nil))
          ∷ (text "analysis_summary", str analysis_summary)
          ∷ (text "file_count", num 0)
          ∷ [])
        ((text "analysis_summary", str analysis_summary) ∷ [])
  run_kind Dag.patch_plan =
      run_simulated patch_plan_created
        ((text "patches", arr (cons simulated_patch nil))
          ∷ (text "patch_count", num 1)
          ∷ (
            text "rationale",
            str (text "Simulated patch plan for sandboxed code-change workflow."),
          )
          ∷ [])
        ((text "patch_count", num 1) ∷ [])
  run_kind Dag.patch_apply_simulated =
      run_simulated patch_simulation_applied
        ((text "patches_applied", num 1)
          ∷ (text "simulation_ok", bool true)
          ∷ (text "sandbox_id", str (create_sandbox_id dag.run_id))
          ∷ [])
        ((text "sandbox_id", str (create_sandbox_id dag.run_id))
          ∷ (text "simulation_ok", bool true)
          ∷ [])
  run_kind Dag.build_verify =
      run_simulated build_verified
        ((text "result", verification [] (text "Simulated build OK")) ∷ [])
        ((text "build_passed", bool true) ∷ [])
  run_kind Dag.test_verify =
      run_simulated tests_verified
        ((
          text "result",
          verification ((text "test_count", num 0) ∷ (text "fail_count", num 0) ∷ [])
              (text "Simulated tests OK"),
        )
          ∷ [])
        ((text "tests_passed", bool true) ∷ [])
  run_kind Dag.patch_review =
      run_simulated patch_review_completed
        ((text "approved", bool true)
          ∷ (text "review_source", str (text "AUTOMATED"))
          ∷ (text "issues_found", num 0)
          ∷ (text "review_summary", str (text "Simulated review: auto-approved (sandboxed v1)."))
          ∷ (text "build_passed", bool true)
          ∷ (text "tests_passed", bool true)
          ∷ [])
        ((text "approved", bool true) ∷ [])

  unfoldable pub run_node : M W NodeResult
  run_node = run_kind node.kind
