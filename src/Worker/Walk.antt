-- ===== src/Worker/Walk.antt =====
-- The steps of a job that do not complete its run.
use cognitive_runtime.Prelude.{
  ℕ, ltb, ◌≡◌, refl, Bool, false, inl, inr, Option, Option-cases, none, some, List, Text, text,
  starts_with, arith,
}
use cognitive_runtime.Contracts.Dag.{DagSpec}
use cognitive_runtime.Contracts.EventTypes
use cognitive_runtime.Contracts.EventTypes.{RunEventType, is_type, run_completed}
use cognitive_runtime.Contracts.Events.{RunEvent, EventData}
use cognitive_runtime.Executor.Outcome.{Thrown}
use cognitive_runtime.Executor.Effects.{Services, State, M, append_new, list_by_run_id}
use cognitive_runtime.Executor.Respects.{
  IsStable, Respects, bind-Respects, try_catch-Respects, cond-Respects, lift-Respects, ask-Respects,
}
use cognitive_runtime.Lifecycle.{is_run_cancelled, is_run_timed_out}
use cognitive_runtime.Reward.{RewardOutput}
use cognitive_runtime.Runs.Routes.{RunJob}
use cognitive_runtime.Worker.Reward.{
  list_by_event_type, compute_and_store, rewarded, run_reward_block,
}
use cognitive_runtime.Worker.Quiet.{
  completions, completions-append, IsQuiet, IsQuiet-IsStable, append_new-IsQuiet,
  execute_dag-IsQuiet,
}
use cognitive_runtime.Worker.Job.{
  Runtime, arrive, list_events, retrieve, decide, policy_gate, check_timeout, check_cancelled,
  reward, write_memory, is_blocked, policy_of, unless_blocked, evaluate_unless_fallback,
  is_controlled, error_message, attempt_run, report, classify,
}

-- The worker alone completes the run: neither the other processes nor the components that it calls
-- append a RUN_COMPLETED of it.
pub record IsAlone {W F Context Decision : Type 0} (runtime : Runtime W F Context Decision)
    (job : RunJob) : Type 0 where
  pub arrivals : (w : W) → completions job.run_id (runtime.arrivals w).0 ≡ 0
  pub retrieve_context : Respects (IsQuiet job.run_id) (runtime.retrieve_context job)
  pub set_context : (c : Context) → Respects (IsQuiet job.run_id) (runtime.set_context job.run_id c)
  pub plan : (dag : DagSpec) → Respects (IsQuiet job.run_id) (runtime.plan job dag)
  pub maybe_write :
      (events : List RunEvent) (dag_ok : Bool) (score : Option F)
      → Respects (IsQuiet job.run_id) (runtime.maybe_write job events dag_ok score)

module _ {W F Context Decision : Type 0} (services : Services W)
    (runtime : Runtime W F Context Decision) (job : RunJob) (alone : IsAlone runtime job) where
  abbrev pub Quiet : {A : Type 0} → M W A → Type 0
  Quiet m = Respects (IsQuiet job.run_id) m

  pub stable : IsStable {W = W} (IsQuiet job.run_id)
  stable = IsQuiet-IsStable job.run_id

  pub event-Quiet :
      (type : RunEventType) (d : EventData)
      → is_type type run_completed ≡ false
      → Quiet (append_new services job.run_id job.chat_id type d)
  event-Quiet type d other = append_new-IsQuiet services job.run_id job.chat_id type d other

  pub arrive-Quiet : Quiet (arrive services runtime job)
  unfolding arrive
  arrive-Quiet = record {
    after = λ s. record {
      none_added =
          rw
            (
              completions-append job.run_id s.log (runtime.arrivals s.world).0,
              alone.arrivals s.world,
            )
            (omega arith);
    };
  }

  list_by_run_id-Quiet : Quiet (list_by_run_id services job.run_id)
  unfolding list_by_run_id
  list_by_run_id-Quiet = record { after = after }
    where
      after : (s : State W) → IsQuiet job.run_id s (list_by_run_id services job.run_id s).1
      after s = elim (Option-cases (services.list_fails job.run_id s.world)) [
        | inl listed ↦ rw listed (stable.same s)
        | inr (e, failed) ↦ rw failed (stable.same s)
      ]

  pub list_events-Quiet : Quiet (list_events services runtime job)
  unfolding list_events
  list_events-Quiet = bind-Respects stable arrive-Quiet (λ _. list_by_run_id-Quiet)

  list_by_event_type-Quiet :
      (type : RunEventType) (limit : ℕ)
      → Quiet (list_by_event_type services runtime.scoring type limit)
  unfolding list_by_event_type
  list_by_event_type-Quiet type limit = record { after = after }
    where
      after :
          (s : State W)
          → IsQuiet job.run_id s (list_by_event_type services runtime.scoring type limit s).1
      after s = elim (Option-cases (runtime.scoring.list_type_fails type s.world)) [
        | inl listed ↦ rw listed (stable.same s)
        | inr (e, failed) ↦ rw failed (stable.same s)
      ]

  compute_and_store-Quiet :
      (agent_id : Text) (r : RewardOutput F)
      → Quiet (compute_and_store services runtime.scoring job agent_id r)
  unfolding compute_and_store is_type
  compute_and_store-Quiet agent_id r =
      bind-Respects stable (event-Quiet EventTypes.reward_computed _ refl) λ _.
        bind-Respects stable (list_by_event_type-Quiet EventTypes.trust_updated 1000) λ updates.
          bind-Respects stable (ask-Respects stable _) λ now.
            bind-Respects stable (event-Quiet EventTypes.trust_updated _ refl) λ _.
              bind-Respects stable (event-Quiet EventTypes.reward_agent_completed _ refl)
                (λ _. lift-Respects stable _)

  rewarded-Quiet :
      (dag_ok : Bool) (agent_id : Text) (events : List RunEvent) (old : Option RunEvent)
      → Quiet (rewarded services runtime.scoring job dag_ok agent_id events old)
  unfolding rewarded is_type
  rewarded-Quiet dag_ok agent_id events (some e) = lift-Respects stable _
  rewarded-Quiet dag_ok agent_id events none =
      bind-Respects stable (event-Quiet EventTypes.reward_agent_started _ refl)
        (λ _. compute_and_store-Quiet agent_id _)

  retrieve-Quiet : Quiet (retrieve services runtime job)
  unfolding retrieve
  retrieve-Quiet =
      try_catch-Respects stable
        (bind-Respects stable alone.retrieve_context
          λ c. try_catch-Respects stable (alone.set_context c) (λ e. lift-Respects stable _))
        (λ e. lift-Respects stable _)

  decide-Quiet : (dag : DagSpec) → Quiet (decide services runtime job dag)
  unfolding decide
  decide-Quiet dag =
      try_catch-Respects stable
        (bind-Respects stable (alone.plan dag) (λ d. lift-Respects stable _))
        (λ e. lift-Respects stable _)

  policy_gate-Quiet : (dag : DagSpec) → Quiet (policy_gate services runtime job dag)
  unfolding policy_gate unless_blocked is_type
  policy_gate-Quiet dag =
      cond-Respects stable runtime.config.enable_policy_gate
        (try_catch-Respects stable
          (bind-Respects stable (event-Quiet EventTypes.policy_evaluated _ refl) λ _.
            cond-Respects stable (is_blocked (policy_of services runtime job dag).verdict)
              (bind-Respects stable (event-Quiet EventTypes.run_cancel_requested _ refl)
                (λ _. lift-Respects stable _))
              (lift-Respects stable _))
          (λ e.
            cond-Respects stable (starts_with e.message (text "POLICY_BLOCKED"))
              (lift-Respects stable _) (lift-Respects stable _)))
        (lift-Respects stable _)

  check_timeout-Quiet : Quiet (check_timeout services runtime job)
  unfolding check_timeout is_type
  check_timeout-Quiet =
      cond-Respects stable (ltb 0 runtime.config.run_timeout_ms)
        (bind-Respects stable list_events-Quiet λ events.
          bind-Respects stable (ask-Respects stable _) λ now.
            cond-Respects stable
              (is_run_timed_out runtime.parse_ms events runtime.config.run_timeout_ms now)
              (bind-Respects stable (event-Quiet EventTypes.run_timeout_reached _ refl)
                (λ _. lift-Respects stable _))
              (lift-Respects stable _))
        (lift-Respects stable _)

  check_cancelled-Quiet : Quiet (check_cancelled services runtime job)
  unfolding check_cancelled
  check_cancelled-Quiet = bind-Respects stable list_events-Quiet λ events.
      cond-Respects stable (is_run_cancelled events) (lift-Respects stable _)
        (lift-Respects stable _)

  evaluate-Quiet :
      (decision : Option Decision) → Quiet (evaluate_unless_fallback services runtime job decision)
  unfolding evaluate_unless_fallback is_type
  evaluate-Quiet none = lift-Respects stable _
  evaluate-Quiet (some d) =
      cond-Respects stable (runtime.fallback_used d) (lift-Respects stable _) (
        try_catch-Respects stable
          (bind-Respects stable list_events-Quiet λ events.
            bind-Respects stable (lift-Respects stable _)
              (λ evaluation. event-Quiet EventTypes.meta_planner_evaluated _ refl))
          (λ e. lift-Respects stable _))

  reward-Quiet :
      (dag_ok : Bool) (events : List RunEvent) → Quiet (reward services runtime job dag_ok events)
  unfolding reward run_reward_block
  reward-Quiet dag_ok events =
      try_catch-Respects stable (rewarded-Quiet dag_ok _ events _) (λ e. lift-Respects stable _)

  write_memory-Quiet :
      (dag_ok : Bool) (score : Option F) → Quiet (write_memory services runtime job dag_ok score)
  unfolding write_memory
  write_memory-Quiet dag_ok score =
      try_catch-Respects stable
        (bind-Respects stable list_events-Quiet (λ events. alone.maybe_write events dag_ok score))
        (λ e. lift-Respects stable _)

  pub attempt_run-Quiet : Quiet (attempt_run services runtime job)
  unfolding attempt_run
  attempt_run-Quiet = bind-Respects stable retrieve-Quiet λ _.
      bind-Respects stable (ask-Respects stable _) λ now.
        bind-Respects stable (decide-Quiet _) λ decision.
          bind-Respects stable (policy_gate-Quiet _) λ _.
            bind-Respects stable check_timeout-Quiet λ _.
              bind-Respects stable check_cancelled-Quiet λ _.
                bind-Respects stable (execute_dag-IsQuiet services job.run_id _ _) λ result.
                  bind-Respects stable list_events-Quiet λ events.
                    bind-Respects stable (reward-Quiet result.0 events) λ score.
                      bind-Respects stable (evaluate-Quiet decision) λ _.
                        bind-Respects stable (write_memory-Quiet result.0 score)
                          (λ _. lift-Respects stable _)

  pub report-Quiet : (e : Thrown) → Quiet (report services runtime job e)
  unfolding report is_type
  report-Quiet e =
      bind-Respects stable
        (cond-Respects stable (is_controlled (error_message services runtime job e))
          (lift-Respects stable _) (event-Quiet EventTypes.runtime_error _ refl))
        (λ _. lift-Respects stable _)

  pub classify-Quiet : (succeeded : Bool) → Quiet (classify services runtime job succeeded)
  unfolding classify is_type
  classify-Quiet succeeded = cond-Respects stable succeeded (lift-Respects stable _) (
      try_catch-Respects stable
        (bind-Respects stable list_events-Quiet
          (λ events. event-Quiet EventTypes.run_classified_failed _ refl))
        (λ e. lift-Respects stable _))
