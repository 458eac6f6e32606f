-- ===== src/Reward/Trust.antt =====
-- deriveAgentTrust.
use cognitive_runtime.Prelude.{ℕ, ◌≡◌, true, false, if◌then◌else◌, Option, none, some, Text}
use cognitive_runtime.Contracts.Numbers.{Numbers, IsOrdered, clamp, clamp-between}

pub record ExistingTrust (F : Type 0) : Type 0 where
  pub trust : F
  pub updated_at : Text

pub record TrustUpdateResult (F : Type 0) : Type 0 where
  pub agent_id : Text
  pub trust : F
  pub updated_at : Text
  pub trust_before : F
  pub ema_alpha : F

-- `time_of` is `new Date(ts).getTime()`, which may be NaN, and `iso_of` is `toISOString()`.
module _ {F : Type 0} (numbers : Numbers F) (time_of : Text → F) (iso_of : ℕ → Text) where
  open numbers use {literal, add, sub, mul, div, leb, is_nan}

  abbrev pub trust_min : F
  trust_min = literal 1 1

  abbrev pub trust_max : F
  trust_max = literal 95 2

  -- The milliseconds of a day: 1000 * 60 * 60 * 24.
  abbrev days_since : F → F → F
  days_since updated now = div (sub now updated) (literal 86400000 0)

  unfoldable pub apply_decay : F → Text → ℕ → F
  apply_decay trust updated_at now =
      let days = days_since (time_of updated_at) (literal now 0) in
      if leb days (literal 0 0)
      then trust
      else clamp numbers (sub trust (mul (literal 1 2) days)) trust_min trust_max

  unfoldable pub trust_before : Option (ExistingTrust F) → ℕ → F
  unfolding apply_decay
  trust_before none now = literal 6 1
  trust_before (some existing) now = apply_decay existing.trust existing.updated_at now

  -- The exponential moving average, before it is clamped.
  unfoldable pub blended : F → F → F
  blended before score =
      add (mul (sub (literal 1 0) (literal 15 2)) before) (mul (literal 15 2) score)

  unfoldable pub derive_agent_trust :
      (agent_id : Text) → Option (ExistingTrust F) → F → ℕ → TrustUpdateResult F
  unfolding trust_before blended
  derive_agent_trust agent_id existing score now = record {
    agent_id = agent_id;
    trust = clamp numbers (blended (trust_before existing now) score) trust_min trust_max;
    updated_at = iso_of now;
    trust_before = trust_before existing now;
    ema_alpha = literal 15 2;
  }

  -- The trust stays from 0.1 to 0.95 whatever the trust before and the score are, if the average
  -- of the two is not NaN.
  pub derive_agent_trust-bounds :
      (ordered : IsOrdered numbers) (agent_id : Text) (existing : Option (ExistingTrust F))
      (score : F) (now : ℕ)
      → leb trust_min trust_max ≡ true
      → is_nan (blended (trust_before existing now) score) ≡ false
      → (leb trust_min (derive_agent_trust agent_id existing score now).trust ≡ true)
        × (leb (derive_agent_trust agent_id existing score now).trust trust_max ≡ true)
  unfolding derive_agent_trust
  derive_agent_trust-bounds ordered agent_id existing score now below real =
      clamp-between numbers ordered _ trust_min trust_max real (ordered.literal_real 1 1)
        (ordered.literal_real 95 2) below
