-- ===== src/Contracts/EventTypes.antt =====
-- The types of the events of a run (packages/contracts/src/event-types.ts): the names in the
-- order of RUN_EVENT_TYPE_VALUES, and `===` on them.
use cognitive_runtime.Prelude.{ℕ, ◌≡◌, refl, Bool, true, ◌==◌, ==_iff, Text, text}

pub data RunEventType : Type 0 where
  run_created user_message_recorded llm_requested llm_stream_started : RunEventType
  llm_stream_token llm_stream_completed llm_completed runtime_error : RunEventType
  validation_error run_completed run_status_changed run_enqueued worker_started : RunEventType
  worker_heartbeat dag_planned node_queued node_started node_succeeded node_failed : RunEventType
  node_retry_scheduled dag_completed reply_constraint_evaluated layer_entered : RunEventType
  layer_exited reward_agent_started reward_computed trust_updated : RunEventType
  reward_agent_completed memory_write_requested memory_written memory_indexed : RunEventType
  memory_retrieved memory_skipped run_context_prepared meta_planner_started : RunEventType
  meta_planner_context_retrieved meta_planner_candidate_built : RunEventType
  meta_planner_decision_made meta_planner_skipped meta_planner_fallback_used : RunEventType
  meta_planner_evaluated meta_planner_failed run_cancel_requested run_cancelled : RunEventType
  run_timeout_reached run_stale_detected run_classified_failed : RunEventType
  meta_planner_replan_requested meta_planner_replan_decided : RunEventType
  meta_planner_replan_exhausted policy_evaluated codebase_analyzed : RunEventType
  patch_plan_created patch_simulation_applied build_verified tests_verified : RunEventType
  patch_review_completed : RunEventType

-- The string that the type is.
unfoldable pub type_name : RunEventType → Text
type_name run_created = text "RUN_CREATED"
type_name user_message_recorded = text "USER_MESSAGE_RECORDED"
type_name llm_requested = text "LLM_REQUESTED"
type_name llm_stream_started = text "LLM_STREAM_STARTED"
type_name llm_stream_token = text "LLM_STREAM_TOKEN"
type_name llm_stream_completed = text "LLM_STREAM_COMPLETED"
type_name llm_completed = text "LLM_COMPLETED"
type_name runtime_error = text "RUNTIME_ERROR"
type_name validation_error = text "VALIDATION_ERROR"
type_name run_completed = text "RUN_COMPLETED"
type_name run_status_changed = text "RUN_STATUS_CHANGED"
type_name run_enqueued = text "RUN_ENQUEUED"
type_name worker_started = text "WORKER_STARTED"
type_name worker_heartbeat = text "WORKER_HEARTBEAT"
type_name dag_planned = text "DAG_PLANNED"
type_name node_queued = text "NODE_QUEUED"
type_name node_started = text "NODE_STARTED"
type_name node_succeeded = text "NODE_SUCCEEDED"
type_name node_failed = text "NODE_FAILED"
type_name node_retry_scheduled = text "NODE_RETRY_SCHEDULED"
type_name dag_completed = text "DAG_COMPLETED"
type_name reply_constraint_evaluated = text "REPLY_CONSTRAINT_EVALUATED"
type_name layer_entered = text "LAYER_ENTERED"
type_name layer_exited = text "LAYER_EXITED"
type_name reward_agent_started = text "REWARD_AGENT_STARTED"
type_name reward_computed = text "REWARD_COMPUTED"
type_name trust_updated = text "TRUST_UPDATED"
type_name reward_agent_completed = text "REWARD_AGENT_COMPLETED"
type_name memory_write_requested = text "MEMORY_WRITE_REQUESTED"
type_name memory_written = text "MEMORY_WRITTEN"
type_name memory_indexed = text "MEMORY_INDEXED"
type_name memory_retrieved = text "MEMORY_RETRIEVED"
type_name memory_skipped = text "MEMORY_SKIPPED"
type_name run_context_prepared = text "RUN_CONTEXT_PREPARED"
type_name meta_planner_started = text "META_PLANNER_STARTED"
type_name meta_planner_context_retrieved = text "META_PLANNER_CONTEXT_RETRIEVED"
type_name meta_planner_candidate_built = text "META_PLANNER_CANDIDATE_BUILT"
type_name meta_planner_decision_made = text "META_PLANNER_DECISION_MADE"
type_name meta_planner_skipped = text "META_PLANNER_SKIPPED"
type_name meta_planner_fallback_used = text "META_PLANNER_FALLBACK_USED"
type_name meta_planner_evaluated = text "META_PLANNER_EVALUATED"
type_name meta_planner_failed = text "META_PLANNER_FAILED"
type_name run_cancel_requested = text "RUN_CANCEL_REQUESTED"
type_name run_cancelled = text "RUN_CANCELLED"
type_name run_timeout_reached = text "RUN_TIMEOUT_REACHED"
type_name run_stale_detected = text "RUN_STALE_DETECTED"
type_name run_classified_failed = text "RUN_CLASSIFIED_FAILED"
type_name meta_planner_replan_requested = text "META_PLANNER_REPLAN_REQUESTED"
type_name meta_planner_replan_decided = text "META_PLANNER_REPLAN_DECIDED"
type_name meta_planner_replan_exhausted = text "META_PLANNER_REPLAN_EXHAUSTED"
type_name policy_evaluated = text "POLICY_EVALUATED"
type_name codebase_analyzed = text "CODEBASE_ANALYZED"
type_name patch_plan_created = text "PATCH_PLAN_CREATED"
type_name patch_simulation_applied = text "PATCH_SIMULATION_APPLIED"
type_name build_verified = text "BUILD_VERIFIED"
type_name tests_verified = text "TESTS_VERIFIED"
type_name patch_review_completed = text "PATCH_REVIEW_COMPLETED"

-- The place in RUN_EVENT_TYPE_VALUES.
unfoldable pub type_index : RunEventType → ℕ
type_index run_created = 0
type_index user_message_recorded = 1
type_index llm_requested = 2
type_index llm_stream_started = 3
type_index llm_stream_token = 4
type_index llm_stream_completed = 5
type_index llm_completed = 6
type_index runtime_error = 7
type_index validation_error = 8
type_index run_completed = 9
type_index run_status_changed = 10
type_index run_enqueued = 11
type_index worker_started = 12
type_index worker_heartbeat = 13
type_index dag_planned = 14
type_index node_queued = 15
type_index node_started = 16
type_index node_succeeded = 17
type_index node_failed = 18
type_index node_retry_scheduled = 19
type_index dag_completed = 20
type_index reply_constraint_evaluated = 21
type_index layer_entered = 22
type_index layer_exited = 23
type_index reward_agent_started = 24
type_index reward_computed = 25
type_index trust_updated = 26
type_index reward_agent_completed = 27
type_index memory_write_requested = 28
type_index memory_written = 29
type_index memory_indexed = 30
type_index memory_retrieved = 31
type_index memory_skipped = 32
type_index run_context_prepared = 33
type_index meta_planner_started = 34
type_index meta_planner_context_retrieved = 35
type_index meta_planner_candidate_built = 36
type_index meta_planner_decision_made = 37
type_index meta_planner_skipped = 38
type_index meta_planner_fallback_used = 39
type_index meta_planner_evaluated = 40
type_index meta_planner_failed = 41
type_index run_cancel_requested = 42
type_index run_cancelled = 43
type_index run_timeout_reached = 44
type_index run_stale_detected = 45
type_index run_classified_failed = 46
type_index meta_planner_replan_requested = 47
type_index meta_planner_replan_decided = 48
type_index meta_planner_replan_exhausted = 49
type_index policy_evaluated = 50
type_index codebase_analyzed = 51
type_index patch_plan_created = 52
type_index patch_simulation_applied = 53
type_index build_verified = 54
type_index tests_verified = 55
type_index patch_review_completed = 56

-- `e.type === t`. The strings are distinct, so that the places may be compared.
unfoldable pub is_type : RunEventType → RunEventType → Bool
unfolding type_index
is_type a b = type_index a == type_index b

pub is_type_refl : (a : RunEventType) → is_type a a ≡ true
unfolding is_type
is_type_refl a = (==_iff (type_index a) (type_index a)).1 refl
