-- ===== src/Executor/Traversal.antt =====
-- What every event that executeDag emits satisfies, and every such relation between the states
-- before and after, holds through the whole run: one walk over the code for all such facts.
pub mod NodeKinds
pub mod Loop
use Prim.Native.Nat.{zero, suc}
use cognitive_runtime.Prelude.{
  ℕ, ◌+◌, ◌-◌, ◌*◌, ◌≤◌, ltb, ◌≡◌, refl, Bool, true, false, Bool-cases, inl, inr, Option, none,
  some, List, [], ◌∷◌, Text, text, ◌||◌, arith,
}
use mathlib.Core.Bool.{cond}
use cognitive_runtime.Contracts.Json.{Json}
use cognitive_runtime.Contracts.Dag
use cognitive_runtime.Contracts.Dag.{DagNode, DagSpec, NodeResult, NodeKind}
use cognitive_runtime.Contracts.EventTypes.{RunEventType, is_type, node_started}
use cognitive_runtime.Contracts.EventTypes
use cognitive_runtime.Contracts.Events.{EventData}
use cognitive_runtime.Executor.Outcome.{Outcome, ok, thrown, Thrown}
use cognitive_runtime.Executor.Effects.{Services, State, M, Role, Fetched, failed_fetch, response}
use cognitive_runtime.Executor.Emit.{emit}
use cognitive_runtime.Executor.Prompt.{
  build_prompt_from_db, llama_completion, completion_of, rethrow, is_timeout_error, is_some_text,
}
use cognitive_runtime.Executor.Nodes.{NodeExecContext, Outputs}
use cognitive_runtime.Executor.Nodes.Handlers.{
  persist, complete, completion_failed, request_completion, after_prompt, run_llm_chat, enforced,
  run_enforce, run_persist_assistant,
}
use cognitive_runtime.Executor.Nodes.Kinds.{run_simulated, run_kind, run_node}
use cognitive_runtime.Executor.Respects.{
  lift-Respects, ask-Respects, ask_or_throw-Respects, if-Respects, IsStable, Respects,
  bind-Respects, try_catch-Respects, settle-Respects, cond-Respects,
}

-- An attempt that the executor may start.
abbrev pub IsAttempt : Option ℕ → Type 0
IsAttempt none = ⊥
IsAttempt (some a) = (1 ≤ a) × (a ≤ 2)

-- NODE_STARTED carries an attempt from 1 to 2.
abbrev pub IsFine : RunEventType → EventData → Type 0
IsFine type d = is_type type node_started ≡ true → IsAttempt d.attempt

-- The types of the events that executeDag emits.
abbrev pub is_emitted : RunEventType → Bool
is_emitted EventTypes.llm_requested = true
is_emitted EventTypes.llm_completed = true
is_emitted EventTypes.validation_error = true
is_emitted EventTypes.dag_planned = true
is_emitted EventTypes.node_queued = true
is_emitted EventTypes.node_started = true
is_emitted EventTypes.node_succeeded = true
is_emitted EventTypes.node_failed = true
is_emitted EventTypes.node_retry_scheduled = true
is_emitted EventTypes.dag_completed = true
is_emitted EventTypes.reply_constraint_evaluated = true
is_emitted EventTypes.codebase_analyzed = true
is_emitted EventTypes.patch_plan_created = true
is_emitted EventTypes.patch_simulation_applied = true
is_emitted EventTypes.build_verified = true
is_emitted EventTypes.tests_verified = true
is_emitted EventTypes.patch_review_completed = true
is_emitted _ = false

pub record IsRule {W : Type 0} (services : Services W) (dag : DagSpec)
    (R : State W → State W → Type 0) : Type 0 where
  pub stable : IsStable R
  pub emits :
      (type : RunEventType) (d : EventData)
      → is_emitted type ≡ true
      → IsFine type d
      → Respects R (emit services dag type d)
