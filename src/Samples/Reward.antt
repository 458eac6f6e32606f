-- ===== src/Samples/Reward.antt =====
-- The theorems on rewards and trust, at numbers that count hundredths.
use Prim.Native.Nat.{zero, suc}
use cognitive_runtime.Prelude.{
  ℕ, ◌+◌, ◌-◌, ◌*◌, ◌/◌, min, max, leb, ◌≡◌, refl, ◌↔◌, true, false, none, some, List, [], ◌∷◌,
  Text, text, arith,
}
use cognitive_runtime.Contracts.Json.{num}
use cognitive_runtime.Contracts.EventTypes
use cognitive_runtime.Contracts.Events.{RunEvent, no_data}
use cognitive_runtime.Contracts.Numbers.{Numbers, IsOrdered}
use cognitive_runtime.Executor.Tests.{chat_dag}
use cognitive_runtime.Reward.{
  RewardInput, hard_stop, attempts_by_node, max_attempts, compute_reward,
}
use cognitive_runtime.Reward.Attempts.{highest_attempt, max_attempts-highest}
use cognitive_runtime.Reward.Routing.{has_failed, compute_reward-hard_stop, compute_reward-bounds}
use cognitive_runtime.Reward.Trust.{derive_agent_trust, derive_agent_trust-bounds}

abbrev hundredths : ℕ → ℕ → ℕ
hundredths m zero = m * 100
hundredths m (suc zero) = m * 10
hundredths m (suc (suc k)) = m

abbrev pub numbers : Numbers ℕ
numbers = record {
  literal = hundredths;
  add = λ a b. a + b;
  sub = λ a b. a - b;
  mul = λ a b. a * b / 100;
  div = λ a b. a * 100 / b;
  max = λ a b. max a b;
  min = λ a b. min a b;
  leb = λ a b. leb a b;
  is_nan = λ a. false;
  json_of = λ a. num a;
  number_of = λ v. none;
}

numbers-IsOrdered : IsOrdered numbers
numbers-IsOrdered = record {
  literal_real = λ m k. refl;
  min_real = λ a b h k. refl;
  max_left = λ a b h k. ground arith;
  max_least = λ a b c h k. ground arith;
  min_left = λ a b h k. ground arith;
}

abbrev second_attempt : RunEvent
second_attempt = record {
  ts = text "1000";
  run_id = chat_dag.run_id;
  chat_id = text "c";
  type = EventTypes.node_started;
  payload = record no_data { node_id = some (text "b"); attempt = some 2 };
}

abbrev input : RewardInput
input = record {
  run_id = chat_dag.run_id;
  agent_id = text "qwen-local";
  dag_id = chat_dag.run_id;
  dag_ok = true;
  events = second_attempt ∷ [];
}

abbrev no_digest : Text → List ℕ
no_digest t = []

compute_reward-hard_stop_example :
    ((compute_reward numbers no_digest input).routing ≡ hard_stop)
    ↔ (has_failed numbers no_digest input ≡ true)
compute_reward-hard_stop_example = compute_reward-hard_stop numbers no_digest input

compute_reward-bounds_example :
    (leb 0 (compute_reward numbers no_digest input).artifact_score ≡ true)
    × (leb (compute_reward numbers no_digest input).artifact_score 100 ≡ true)
compute_reward-bounds_example =
    compute_reward-bounds numbers no_digest input numbers-IsOrdered refl refl

max_attempts-highest_example :
    max_attempts 1 (attempts_by_node [] (second_attempt ∷ []))
    ≡ max 1 (highest_attempt (second_attempt ∷ []))
max_attempts-highest_example = max_attempts-highest (second_attempt ∷ [])

abbrev at_zero : Text → ℕ
at_zero ts = 0

abbrev no_iso : ℕ → Text
no_iso n = []

derive_agent_trust-bounds_example :
    (leb 10 (derive_agent_trust numbers at_zero no_iso (text "a") none 90 1000).trust ≡ true)
    × (leb (derive_agent_trust numbers at_zero no_iso (text "a") none 90 1000).trust 95 ≡ true)
derive_agent_trust-bounds_example =
    derive_agent_trust-bounds numbers at_zero no_iso numbers-IsOrdered (text "a") none 90 1000 refl
      refl
