-- ===== src/Reward.antt =====
-- The reward agent and the trust in agents (packages/runtime/src/reward-agent.ts and
-- derive-agent-trust.ts).
pub mod Trust
pub mod Attempts
pub mod Routing
use Prim.Native.Nat.{zero, suc}
use cognitive_runtime.Prelude.{
  ℕ, ◌+◌, ◌-◌, ◌*◌, ◌%◌, ltb, ◌==◌, Bool, true, false, not, ◌&&◌, ◌||◌, if◌then◌else◌, Option, none,
  some, get_or, List, [], ◌∷◌, ◌++◌, any, Text, text,
}
use cognitive_runtime.Prelude.Maps.{get, set}
use cognitive_runtime.Contracts.Numbers.{Numbers, clamp}
use cognitive_runtime.Contracts.EventTypes.{is_type, validation_error, llm_completed, node_started}
use cognitive_runtime.Contracts.Events.{RunEvent}

pub data RoutingDecision : Type 0 where
  proceed proceed_with_warning retry_layer escalate hard_stop : RoutingDecision

pub record RewardInput : Type 0 where
  pub run_id : Text
  pub agent_id : Text
  pub dag_id : Text
  pub dag_ok : Bool
  pub events : List RunEvent

-- SYN, SEC and HUM are whole numbers.
pub record RewardSignals (F : Type 0) : Type 0 where
  pub syn : ℕ
  pub sec : ℕ
  pub res : F
  pub perf : F
  pub maint : F
  pub rwk : F
  pub hum : ℕ

pub record RewardOutput (F : Type 0) : Type 0 where
  pub signals : RewardSignals F
  pub artifact_score : F
  pub routing : RoutingDecision
  pub epsilon : F
  pub hard_gate_triggered : Bool

-- The first four bytes of a digest, and 0 for a byte that is missing.
abbrev pub byte_at : List ℕ → ℕ → ℕ
byte_at [] i = 0
byte_at (b ∷ bs) zero = b % 256
byte_at (b ∷ bs) (suc i) = byte_at bs i

unfoldable pub uint32_of : List ℕ → ℕ
uint32_of digest =
    (byte_at digest 0 * 16777216
      + byte_at digest 1 * 65536
      + byte_at digest 2 * 256
      + byte_at digest 3)
    % 4294967296

-- The attempt that a NODE_STARTED of a named node carries.
abbrev pub named_attempt : Option Text → Option ℕ → Option (Text × ℕ)
named_attempt (some (c ∷ id)) attempt = some (c ∷ id, get_or attempt 1)
named_attempt _ attempt = none

abbrev note_attempt : Option (Text × ℕ) → List (Text × ℕ) → List (Text × ℕ)
unfolding get set
note_attempt none m = m
note_attempt (some (id, attempt)) m =
    if ltb (get_or (get id m) 0) attempt then set id attempt m else m

-- The loop over the events, which keeps the highest attempt of each node.
unfoldable pub attempts_by_node : List (Text × ℕ) → List RunEvent → List (Text × ℕ)
unfolding is_type get set
attempts_by_node m [] = m
attempts_by_node m (e ∷ es) =
    attempts_by_node
      (if is_type e.type node_started
        then note_attempt (named_attempt e.payload.node_id e.payload.attempt) m
        else m)
      es

-- The loop over the values of the map.
unfoldable pub max_attempts : ℕ → List (Text × ℕ) → ℕ
max_attempts highest [] = highest
max_attempts highest ((id, attempt) ∷ m) =
    max_attempts (if ltb highest attempt then attempt else highest) m

module _ {F : Type 0} (numbers : Numbers F) where
  open numbers use {literal, add, sub, mul, div, min, leb}

  -- A whole number.
  abbrev pub whole : ℕ → F
  whole n = literal n 0

  -- `sha256` is the digest of the text.
  unfoldable pub compute_epsilon : (sha256 : Text → List ℕ) (run_id agent_id kind : Text) → F
  unfolding uint32_of
  compute_epsilon sha256 run_id agent_id kind =
      sub
        (mul
          (div
            (whole (uint32_of (sha256 (run_id ++ (text ":" ++ (agent_id ++ (text ":" ++ kind)))))))
            (whole 4294967295))
          (literal 1 1))
        (literal 5 2)

  unfoldable pub derive_routing : F → Bool → RoutingDecision
  derive_routing score hard_gate =
      if hard_gate
      then hard_stop
      else if leb (literal 85 2) score
      then proceed
      else if leb (literal 70 2) score
      then proceed_with_warning
      else if leb (literal 50 2) score
      then retry_layer
      else escalate

  -- The first LLM_COMPLETED with a latency.
  unfoldable pub performance : List RunEvent → F
  unfolding is_type
  performance [] = literal 5 1
  performance (e ∷ es) =
      let later = performance es in
      if is_type e.type llm_completed then measured e.payload.latency_ms later else later
    where
      measured : Option ℕ → F → F
      measured none later = later
      measured (some latency) later =
          clamp numbers (sub (whole 1) (div (whole latency) (whole 8000))) (whole 0) (whole 1)

  unfoldable pub signals_of : Bool → List RunEvent → RewardSignals F
  unfolding is_type performance attempts_by_node max_attempts
  signals_of dag_ok events = record {
    syn = if not (any (λ e. is_type e.type validation_error) events) && dag_ok then 1 else 0;
    sec = 1;
    res = literal 5 1;
    perf = performance events;
    maint = literal 5 1;
    rwk = min (div (whole (max_attempts 1 (attempts_by_node [] events) - 1)) (whole 3)) (whole 1);
    hum = 0;
  }

  -- The weighted sum, from left to right.
  unfoldable pub weighted : RewardSignals F → F
  weighted s =
      sub
        (sub
          (add
            (add
              (add (add (mul (literal 35 2) (whole s.syn)) (mul (literal 35 2) (whole s.sec)))
                (mul (literal 20 2) s.res))
              (mul (literal 5 2) s.perf))
            (mul (literal 5 2) s.maint))
          (mul (literal 10 2) s.rwk))
        (mul (literal 15 2) (whole s.hum))

  abbrev pub hard_gate_of : RewardSignals F → Bool
  hard_gate_of s = s.syn == 0 || s.sec == 0

  unfoldable pub raw_score : RewardSignals F → F
  unfolding weighted
  raw_score s = if hard_gate_of s then whole 0 else weighted s

  unfoldable pub compute_reward : (sha256 : Text → List ℕ) → RewardInput → RewardOutput F
  unfolding compute_epsilon signals_of raw_score derive_routing
  compute_reward sha256 input =
      let signals = signals_of input.dag_ok input.events in
      let score = clamp numbers (raw_score signals) (whole 0) (whole 1) in
      record {
        signals = signals;
        artifact_score = score;
        routing = derive_routing score (hard_gate_of signals);
        epsilon = compute_epsilon sha256 input.run_id input.agent_id (text "reward");
        hard_gate_triggered = hard_gate_of signals;
      }
