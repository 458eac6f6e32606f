-- ===== src/Worker/Job.antt =====
-- The handler of the queue's jobs (apps/worker/src/index.ts). What the API and the heartbeat timer
-- append between two steps of it arrives just before the handler reads the log again. The memory
-- and the meta-planner are arguments.
use cognitive_runtime.Prelude.{
  ℕ, ltb, Bool, true, false, not, ◌&&◌, ◌||◌, if◌then◌else◌, Option, none, some, List, [], ◌∷◌,
  ◌++◌, map, any, Text, text, starts_with,
}
use mathlib.Core.Bool.{cond}
use cognitive_runtime.Prelude.Maps.{has_text}
use cognitive_runtime.Contracts.Json.{Json, str, num, null, arr, fields, string_items}
use cognitive_runtime.Contracts.Dag.{RunStatus, DagSpec, min_one, kind_name}
use cognitive_runtime.Contracts.EventTypes.{
  RunEventType, is_type, run_status_changed, worker_started, policy_evaluated, run_cancel_requested,
  run_timeout_reached, meta_planner_evaluated, runtime_error, run_classified_failed, run_cancelled,
  run_completed,
}
use cognitive_runtime.Contracts.Events.{EventData, RunEvent, PolicyVerdict, no_data}
use cognitive_runtime.Executor.Outcome.{Outcome, ok, thrown, Thrown, error}
use cognitive_runtime.Executor.Effects.{
  Services, M, ◌>>=◌, ◌>>◌, pure, throw, lift, ask, try_catch, append_new, list_by_run_id,
}
use cognitive_runtime.Executor.Nodes.{NodeExecContext, message_or}
use cognitive_runtime.Executor.Run.{execute_dag}
use cognitive_runtime.Lifecycle.{
  Phase7Config, is_run_cancelled, has_terminal_event, is_run_timed_out,
}
use cognitive_runtime.Lifecycle.Active.{get_active_node_id}
use cognitive_runtime.Lifecycle.Classify.{RunFailure, classify_failed_run}
use cognitive_runtime.Planner.{plan_dag_for_run, is_code_change_task}
use cognitive_runtime.Policy.{PolicyEvalResult, classify_dag_type, evaluate_policy, risk_name}
use cognitive_runtime.Runs.Routes.{RunJob, moved}
use cognitive_runtime.Worker.{key_for_new_event, key_for_run_event, get_run_completed_ok}
use cognitive_runtime.Worker.Reward.{Scoring, run_reward_block}

-- The worker's configuration, its clock, what other processes append, and the components that it
-- calls: the memory, the cache of the working context and the meta-planner.
pub record Runtime (W F Context Decision : Type 0) : Type 0 where
  pub config : Phase7Config
  pub worker_id : Text
  pub llama_url : Text
  pub history_limit : ℕ
  pub prompt_preamble : Text
  pub arrivals : W → List RunEvent × W
  pub parse_ms : Text → Option ℕ
  pub to_lower_case : Text → Text
  pub details_of : Thrown → Json
  pub scoring : Scoring W F
  pub retrieve_context : RunJob → M W Context
  pub set_context : Text → Context → M W (Unit {0})
  pub plan : RunJob → DagSpec → M W Decision
  pub decided_dag : Decision → DagSpec
  pub fallback_used : Decision → Bool
  pub evaluate : RunJob → Decision → List RunEvent → Outcome EventData
  pub maybe_write : RunJob → List RunEvent → Bool → Option F → M W (Unit {0})

abbrev pub started_data : Text → EventData
started_data worker_id = record no_data { rest = fields ((text "worker_id", str worker_id) ∷ []) }

abbrev pub policy_data : PolicyEvalResult → EventData
policy_data r = record no_data {
  verdict = some r.verdict;
  rest = fields (
      (text "action", str r.action)
      ∷ (text "risk_level", str (risk_name r.risk_level))
      ∷ (text "rules_checked", arr (string_items r.rules_checked))
      ∷ (text "rationale", str r.rationale)
      ∷ (text "dag_type", str r.dag_type)
      ∷ []);
}

abbrev pub is_blocked : PolicyVerdict → Bool
is_blocked PolicyVerdict.blocked = true
is_blocked _ = false

abbrev pub block_reason : PolicyEvalResult → EventData
block_reason r = record no_data {
  rest = fields (
      (text "reason", str (text "Policy blocked: " ++ r.rationale))
      ∷ (text "source", str (text "POLICY"))
      ∷ []);
}

abbrev pub timeout_data : ℕ → EventData
timeout_data ms = record no_data {
  rest =
      fields (
        (text "timeout_ms", num ms)
        ∷ (text "elapsed_ms", num ms)
        ∷ (text "active_node", null)
        ∷ []);
}

abbrev pub classified_data : RunFailure → EventData
classified_data r = record no_data {
  classification = some r.classification;
  retriable = some r.retriable;
  rest = fields ((text "reason", str r.reason) ∷ []);
}

abbrev node_or_null : Option Text → Json
node_or_null none = null
node_or_null (some id) = str id

abbrev pub cancelled_data : Option Text → EventData
cancelled_data node = record no_data {
  rest = fields (
      (text "reason", str (text "Cancellation processed after execution."))
      ∷ (text "cancelled_at_node", node_or_null node)
      ∷ []);
}

abbrev pub completed_data : Bool → EventData
completed_data b = record no_data { ok = some b }

abbrev pub failed_data : Text → Json → EventData
failed_data message details = record no_data {
  code = some (text "WORKER_EXECUTION_FAILED");
  message = some message;
  rest = fields ((text "where", str (text "apps/worker")) ∷ (text "details", details) ∷ []);
}

-- The keys of the stored events.
unfoldable pub seen_of : List RunEvent → List Text
unfolding key_for_run_event
seen_of events = map (λ e. key_for_run_event e) events

-- An error that ends the run under control: it is not reported as a RUNTIME_ERROR.
unfoldable pub is_controlled : Text → Bool
unfolding starts_with
is_controlled message =
    starts_with message (text "RUN_CANCELLED")
    || (starts_with message (text "RUN_TIMEOUT") || starts_with message (text "POLICY_BLOCKED"))

module _ {W F Context Decision : Type 0} (services : Services W)
    (runtime : Runtime W F Context Decision) (job : RunJob) where
  open runtime use {config, scoring, parse_ms, decided_dag}

  abbrev emit_event : RunEventType → EventData → M W (Unit {0})
  emit_event type payload = append_new services job.run_id job.chat_id type payload

  -- The log as it is now.
  unfoldable pub arrive : M W (Unit {0})
  arrive s =
      let (es, w) = runtime.arrivals s.world in (ok tt, record s { log = s.log ++ es; world = w })

  unfoldable pub list_events : M W (List RunEvent)
  list_events = do arrive; list_by_run_id services job.run_id

  -- appendOnce, which answers the keys that have been seen.
  unfoldable pub append_once : List Text → RunEventType → EventData → M W (List Text)
  unfolding key_for_new_event has_text
  append_once seen type payload =
      cond (has_text (key_for_new_event type payload) seen) (pure seen)
        (do emit_event type payload; pure (seen ++ key_for_new_event type payload ∷ []))

  unfoldable pub z_run_job : Bool
  z_run_job =
      services.is_uuid job.run_id
      && (services.is_uuid job.trace_id
          && (services.is_uuid job.chat_id
              && (services.is_uuid job.message_id && min_one job.message)))

  -- A block that is not fatal.
  abbrev non_fatal : M W (Unit {0}) → M W (Unit {0})
  non_fatal m = try_catch m (λ e. pure tt)

  unfoldable pub retrieve : M W (Unit {0})
  retrieve = non_fatal (do
    context ← runtime.retrieve_context job
    non_fatal (runtime.set_context job.run_id context))

  -- The decision, if the meta-planner made one.
  unfoldable pub decide : DagSpec → M W (Option Decision)
  decide default_dag =
      try_catch (do decision ← runtime.plan job default_dag; pure (some decision)) (λ e. pure none)

  abbrev pub final_dag : DagSpec → Option Decision → DagSpec
  final_dag default_dag none = default_dag
  final_dag default_dag (some d) = decided_dag d

  unfoldable pub policy_of : DagSpec → PolicyEvalResult
  unfolding kind_name classify_dag_type is_code_change_task evaluate_policy
  policy_of dag =
      let kinds = map (λ n. kind_name n.kind) dag.nodes in
      evaluate_policy
        (record {
          dag_type = classify_dag_type kinds;
          node_kinds = kinds;
          risk_level = text "medium";
          requires_code = is_code_change_task runtime.to_lower_case job.message;
          regulated_domain = false;
        })
        config.enable_code_change_workflow

  abbrev pub block_run : PolicyEvalResult → M W (Unit {0})
  block_run r = do
    emit_event run_cancel_requested (block_reason r)
    throw (error (text "POLICY_BLOCKED: " ++ r.rationale))

  -- The catch block throws an error again only if its message says that the policy blocked the run.
  unfoldable pub unless_blocked : Thrown → M W (Unit {0})
  unfolding starts_with
  unless_blocked e = cond (starts_with e.message (text "POLICY_BLOCKED")) (throw e) (pure tt)

  unfoldable pub policy_gate : DagSpec → M W (Unit {0})
  unfolding policy_of unless_blocked
  policy_gate dag =
      cond config.enable_policy_gate
        (try_catch
          (do
            emit_event policy_evaluated (policy_data (policy_of dag))
            cond (is_blocked (policy_of dag).verdict) (block_run (policy_of dag)) (pure tt))
          unless_blocked)
        (pure tt)

  unfoldable pub check_timeout : M W (Unit {0})
  unfolding is_run_timed_out
  check_timeout =
      cond (ltb 0 config.run_timeout_ms)
        (do
          events ← list_events
          now ← ask services.date_now
          cond (is_run_timed_out parse_ms events config.run_timeout_ms now)
              (do
                emit_event run_timeout_reached (timeout_data config.run_timeout_ms)
                throw (error (text "RUN_TIMEOUT")))
              (pure tt))
        (pure tt)

  unfoldable pub check_cancelled : M W (Unit {0})
  unfolding is_run_cancelled
  check_cancelled = do
    events ← list_events
    cond (is_run_cancelled events) (throw (error (text "RUN_CANCELLED"))) (pure tt)

  abbrev pub context : NodeExecContext
  context = record {
    llama_url = runtime.llama_url;
    message_id = job.message_id;
    message = job.message;
    history_limit = runtime.history_limit;
    prompt_preamble = runtime.prompt_preamble;
    provider = text "qwen";
    model = text "qwen-2.5-coder-3b";
  }

  -- The reward, if the block did not fail.
  unfoldable pub reward : Bool → List RunEvent → M W (Option F)
  reward dag_ok events =
      try_catch (run_reward_block services scoring job dag_ok (text "qwen-local") events)
        (λ e. pure none)

  abbrev pub evaluate_decision : Decision → M W (Unit {0})
  evaluate_decision d = non_fatal (do
    events ← list_events
    evaluation ← lift (runtime.evaluate job d events)
    emit_event meta_planner_evaluated evaluation)

  unfoldable pub evaluate_unless_fallback : Option Decision → M W (Unit {0})
  evaluate_unless_fallback none = pure tt
  evaluate_unless_fallback (some d) = cond (runtime.fallback_used d) (pure tt) (evaluate_decision d)

  unfoldable pub write_memory : Bool → Option F → M W (Unit {0})
  write_memory dag_ok score =
      non_fatal (do events ← list_events; runtime.maybe_write job events dag_ok score)

  -- The try block.
  unfoldable pub attempt_run : M W Bool
  unfolding plan_dag_for_run evaluate_unless_fallback
  attempt_run = do
    retrieve
    now ← ask services.iso_now
    let default_dag =
        plan_dag_for_run now
          (record { run_id = job.run_id; chat_id = job.chat_id; message = job.message })
    decision ← decide default_dag
    policy_gate (final_dag default_dag decision)
    check_timeout
    check_cancelled
    result ← execute_dag services context (final_dag default_dag decision)
    events ← list_events
    score ← reward result.0 events
    evaluate_unless_fallback decision
    write_memory result.0 score
    pure result.0

  abbrev pub error_message : Thrown → Text
  error_message e = message_or e.message (text "Worker execution failed")

  abbrev pub error_data : Thrown → EventData
  error_data e = failed_data (error_message e) (runtime.details_of e)

  -- The catch block.
  unfoldable pub report : Thrown → M W Bool
  unfolding is_controlled
  report e = do
    cond (is_controlled (error_message e)) (pure tt) (emit_event runtime_error (error_data e))
    pure false

  unfoldable pub classify : Bool → M W (Unit {0})
  unfolding classify_failed_run
  classify succeeded = cond succeeded (pure tt) (
      non_fatal (do
        events ← list_events
        emit_event run_classified_failed (classified_data (classify_failed_run events))))

  -- The last two events of a run.
  unfoldable pub complete : List Text → Bool → M W Bool
  complete seen succeeded = do
    seen ←
        append_once seen run_status_changed
          (moved RunStatus.running (if succeeded then RunStatus.succeeded else RunStatus.failed))
    _ ← append_once seen run_completed (completed_data succeeded)
    pure succeeded

  unfoldable pub cancel : List Text → List RunEvent → M W Bool
  unfolding get_active_node_id
  cancel seen events = do
    emit_event run_cancelled (cancelled_data (get_active_node_id events))
    complete seen false

  unfoldable pub close : List Text → Bool → M W Bool
  unfolding is_run_cancelled is_type
  close seen succeeded = do
    classify succeeded
    events ← list_events
    cond (is_run_cancelled events && not (any (λ e. is_type e.type run_cancelled) events))
        (cancel seen events) (complete seen succeeded)

  unfoldable pub finish : List Text → Bool → M W Bool
  unfolding has_terminal_event
  finish seen succeeded = do
    events ← list_events
    cond (has_terminal_event events) (pure succeeded) (close seen succeeded)

  unfoldable pub run_job : List Text → M W Bool
  run_job seen = do
    seen ← append_once seen run_status_changed (moved RunStatus.queued RunStatus.running)
    seen ← append_once seen worker_started (started_data runtime.worker_id)
    succeeded ← try_catch attempt_run report
    finish seen succeeded

  unfoldable pub unless_completed : Option Bool → List RunEvent → M W Bool
  unfolding is_run_cancelled seen_of
  unless_completed (some b) events = pure b
  unless_completed none events =
      cond (is_run_cancelled events) (pure false) (run_job (seen_of events))

  abbrev validate : Bool → Outcome (Unit {0})
  validate true = ok tt
  validate false = thrown (error (text "Invalid job data"))

  -- The job, which answers the `ok` of its result.
  unfoldable pub work : M W Bool
  unfolding z_run_job get_run_completed_ok unless_completed
  work = do
    lift (validate z_run_job)
    events ← list_events
    unless_completed (get_run_completed_ok events) events
