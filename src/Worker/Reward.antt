-- ===== src/Worker/Reward.antt =====
-- runRewardBlock of the worker: the reward of a run, once, and the trust that follows from it.
use cognitive_runtime.Prelude.{
  ℕ, Bool, true, false, if◌then◌else◌, Option, none, some, get_or, List, [], ◌∷◌, ◌++◌, keep, find,
  take, Text, text, text_eq,
}
use cognitive_runtime.Contracts.Json.{Json, str, num, bool, field_of, fields, object}
use cognitive_runtime.Contracts.Numbers.{Numbers}
use cognitive_runtime.Contracts.EventTypes.{
  RunEventType, is_type, reward_computed, reward_agent_started, reward_agent_completed,
  trust_updated,
}
use cognitive_runtime.Contracts.Events.{EventData, RunEvent, no_data}
use cognitive_runtime.Executor.Outcome.{Thrown}
use cognitive_runtime.Executor.Effects.{Services, M, ◌>>=◌, ◌>>◌, pure, throw, ask, append_new}
use cognitive_runtime.Reward.{RoutingDecision, RewardSignals, RewardOutput, whole, compute_reward}
use cognitive_runtime.Reward
use cognitive_runtime.Reward.Trust.{ExistingTrust, TrustUpdateResult, derive_agent_trust}
use cognitive_runtime.Runs.Routes.{RunJob}

-- What the block takes from outside: the clock's conversions, the digest, and whether the query
-- for the events of a type fails.
pub record Scoring (W F : Type 0) : Type 0 where
  pub numbers : Numbers F
  pub time_of : Text → F
  pub iso_of : ℕ → Text
  pub sha256 : Text → List ℕ
  pub list_type_fails : RunEventType → W → Option Thrown

abbrev routing_name : RoutingDecision → Text
routing_name Reward.proceed = text "proceed"
routing_name Reward.proceed_with_warning = text "proceed_with_warning"
routing_name Reward.retry_layer = text "retry_layer"
routing_name Reward.escalate = text "escalate"
routing_name Reward.hard_stop = text "hard_stop"

-- The events newest first.
unfoldable pub newest : List RunEvent → List RunEvent
newest [] = []
newest (e ∷ es) = newest es ++ e ∷ []

module _ {W F : Type 0} (services : Services W) (scoring : Scoring W F) where
  open scoring use {numbers, time_of, iso_of, sha256, list_type_fails}
  open numbers use {literal, json_of, number_of}

  abbrev found : List RunEvent → Option Thrown → M W (List RunEvent)
  found events none = pure events
  found events (some t) = throw t

  -- `eventLog.listByEventType(type, limit)`: the rows of every run.
  unfoldable pub list_by_event_type : RunEventType → ℕ → M W (List RunEvent)
  unfolding is_type newest
  list_by_event_type type limit s =
      found (take limit (newest (keep (λ e. is_type e.type type) s.log)))
        (list_type_fails type s.world) s

  abbrev is_of_agent : Text → Option Json → Bool
  unfolding text_eq
  is_of_agent agent_id (some (str id)) = text_eq id agent_id
  is_of_agent agent_id _ = false

  -- The newest update of the agent's trust.
  unfoldable pub existing_trust : Text → List RunEvent → Option (ExistingTrust F)
  unfolding field_of text_eq
  existing_trust agent_id [] = none
  existing_trust agent_id (e ∷ es) =
      let rest = existing_trust agent_id es in
      if is_of_agent agent_id (field_of (text "agent_id") e.payload.rest)
      then some (record {
        trust = get_or (number_of (field_of (text "trust_after") e.payload.rest)) (literal 6 1);
        updated_at = e.ts;
      })
      else rest

  abbrev agent_data : (agent_id dag_id : Text) → List (Text × Json) → EventData
  agent_data agent_id dag_id more = record no_data {
    dag_id = some dag_id;
    rest = fields ((text "agent_id", str agent_id) ∷ more);
  }

  abbrev signals_json : RewardSignals F → Json
  signals_json s = object (
      (text "SYN", num s.syn)
      ∷ (text "SEC", num s.sec)
      ∷ (text "RES", json_of s.res)
      ∷ (text "PERF", json_of s.perf)
      ∷ (text "MAINT", json_of s.maint)
      ∷ (text "RWK", json_of s.rwk)
      ∷ (text "HUM", num s.hum)
      ∷ [])

  abbrev reward_fields : RewardOutput F → List (Text × Json)
  reward_fields r =
      (text "signals", signals_json r.signals)
      ∷ (text "artifact_score", json_of r.artifact_score)
      ∷ (text "routing", str (routing_name r.routing))
      ∷ (text "epsilon", json_of r.epsilon)
      ∷ (text "hard_gate_triggered", bool r.hard_gate_triggered)
      ∷ []

  abbrev trust_data : (agent_id : Text) → TrustUpdateResult F → F → EventData
  trust_data agent_id t score = record no_data {
    rest = fields (
        (text "agent_id", str agent_id)
        ∷ (text "trust_before", json_of t.trust_before)
        ∷ (text "trust_after", json_of t.trust)
        ∷ (text "artifact_score", json_of score)
        ∷ (text "ema_alpha", json_of t.ema_alpha)
        ∷ []);
  }

  unfoldable pub compute_and_store : RunJob → (agent_id : Text) → RewardOutput F → M W (Option F)
  unfolding existing_trust derive_agent_trust
  compute_and_store job agent_id reward = do
    append_new services job.run_id job.chat_id reward_computed
        (agent_data agent_id job.run_id (reward_fields reward))
    updates ← list_by_event_type trust_updated 1000
    now ← ask services.date_now
    let trust =
        derive_agent_trust numbers time_of iso_of agent_id (existing_trust agent_id updates)
          reward.artifact_score now
    append_new services job.run_id job.chat_id trust_updated
        (trust_data agent_id trust reward.artifact_score)
    append_new services job.run_id job.chat_id reward_agent_completed
        (record (agent_data agent_id job.run_id
          ((text "routing", str (routing_name reward.routing)) ∷ [])) { ok = some true })
    pure (some reward.artifact_score)

  -- The block for a run with, or without, a REWARD_COMPUTED.
  unfoldable pub rewarded : RunJob → Bool → Text → List RunEvent → Option RunEvent → M W (Option F)
  unfolding field_of compute_reward
  rewarded job dag_ok agent_id events (some e) =
      pure (number_of (field_of (text "artifact_score") e.payload.rest))
  rewarded job dag_ok agent_id events none = do
    append_new services job.run_id job.chat_id reward_agent_started
        (agent_data agent_id job.run_id [])
    compute_and_store job agent_id (
        compute_reward numbers sha256 (record {
          run_id = job.run_id;
          agent_id = agent_id;
          dag_id = job.run_id;
          dag_ok = dag_ok;
          events = events;
        }))

  unfoldable pub run_reward_block : RunJob → Bool → Text → List RunEvent → M W (Option F)
  unfolding is_type rewarded
  run_reward_block job dag_ok agent_id events =
      rewarded job dag_ok agent_id events (find (λ e. is_type e.type reward_computed) events)
