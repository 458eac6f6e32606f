-- ===== src/Reward/Routing.antt =====
-- What the score and the routing of a run are.
use cognitive_runtime.Prelude.{
  ℕ, ◌≡◌, refl, ◌↔◌, Bool, true, false, not, ◌||◌, Bool-cases, inl, inr, if_holds, List, any, Text,
  arith,
}
use cognitive_runtime.Contracts.EventTypes.{is_type, validation_error}
use cognitive_runtime.Contracts.Numbers.{Numbers, IsOrdered, clamp-between}
use cognitive_runtime.Reward.{
  RoutingDecision, hard_stop, RewardInput, whole, signals_of, hard_gate_of, raw_score,
  derive_routing, compute_reward,
}

module _ {F : Type 0} (numbers : Numbers F) (sha256 : Text → List ℕ) (input : RewardInput) where
  open numbers use {leb, is_nan}

  -- The DAG failed, or an event says that something was invalid.
  abbrev pub has_failed : Bool
  unfolding is_type
  has_failed = not input.dag_ok || any (λ e. is_type e.type validation_error) input.events

  gate_lem : hard_gate_of numbers (signals_of numbers input.dag_ok input.events) ≡ has_failed
  unfolding signals_of
  gate_lem = elim (Bool-cases (any (λ e. is_type e.type validation_error) input.events)) [
    | inl invalid ↦ ground arith
    | inr valid ↦ ground arith
  ]

  stop_iff :
      (score : F) (gate : Bool) → (derive_routing numbers score gate ≡ hard_stop) ↔ (gate ≡ true)
  unfolding derive_routing
  stop_iff score true = (λ h. refl, λ h. refl)
  stop_iff score false = (
    λ h. absurd (
        if_holds (λ (r : RoutingDecision). ¬ (r ≡ hard_stop)) (leb (numbers.literal 85 2) score)
          (λ e. cc)
          (if_holds (λ (r : RoutingDecision). ¬ (r ≡ hard_stop)) (leb (numbers.literal 70 2) score)
            (λ e. cc)
            (if_holds (λ (r : RoutingDecision). ¬ (r ≡ hard_stop))
              (leb (numbers.literal 50 2) score) (λ e. cc) (λ e. cc)))
          h),
    λ h. cc,
  )

  -- The routing of a run is the hard stop exactly if its DAG failed or an event is a
  -- VALIDATION_ERROR, whatever its score is.
  pub compute_reward-hard_stop :
      ((compute_reward numbers sha256 input).routing ≡ hard_stop) ↔ (has_failed ≡ true)
  unfolding compute_reward
  compute_reward-hard_stop = rw gate_lem (stop_iff _ has_failed)

  -- The score of a run is from 0 to 1, if the weighted sum of its signals is not NaN.
  pub compute_reward-bounds :
      (ordered : IsOrdered numbers)
      → leb (whole numbers 0) (whole numbers 1) ≡ true
      → is_nan (raw_score numbers (signals_of numbers input.dag_ok input.events)) ≡ false
      → (leb (whole numbers 0) (compute_reward numbers sha256 input).artifact_score ≡ true)
        × (leb (compute_reward numbers sha256 input).artifact_score (whole numbers 1) ≡ true)
  unfolding compute_reward
  compute_reward-bounds ordered below real =
      clamp-between numbers ordered _ _ _ real (ordered.literal_real 0 0) (ordered.literal_real 1 0)
        below
