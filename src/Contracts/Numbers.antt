-- ===== src/Contracts/Numbers.antt =====
-- The numbers of the language, which are floating-point numbers: the operations that the scores and
-- the trust are computed with, and what the code relies on of their order.
use cognitive_runtime.Prelude.{ℕ, ◌≡◌, Bool, true, false, Option}
use cognitive_runtime.Contracts.Json.{Json}

-- `literal m k` is the number written m / 10 ^ k, `leb a b` is `a <= b`, and `number_of` reads a
-- value whose `typeof` is 'number'.
pub record Numbers (F : Type 0) : Type 0 where
  pub literal : ℕ → ℕ → F
  pub add : F → F → F
  pub sub : F → F → F
  pub mul : F → F → F
  pub div : F → F → F
  pub max : F → F → F
  pub min : F → F → F
  pub leb : F → F → Bool
  pub is_nan : F → Bool
  pub json_of : F → Json
  pub number_of : Option Json → Option F

-- Math.max and Math.min on numbers other than NaN.
pub record IsOrdered {F : Type 0} (numbers : Numbers F) : Type 0 where
  pub literal_real : (m k : ℕ) → numbers.is_nan (numbers.literal m k) ≡ false
  pub min_real :
      (a b : F)
      → numbers.is_nan a ≡ false
      → numbers.is_nan b ≡ false
      → numbers.is_nan (numbers.min a b) ≡ false
  pub max_left :
      (a b : F)
      → numbers.is_nan a ≡ false
      → numbers.is_nan b ≡ false
      → numbers.leb a (numbers.max a b) ≡ true
  pub max_least :
      (a b c : F)
      → numbers.leb a c ≡ true
      → numbers.leb b c ≡ true
      → numbers.leb (numbers.max a b) c ≡ true
  pub min_left :
      (a b : F)
      → numbers.is_nan a ≡ false
      → numbers.is_nan b ≡ false
      → numbers.leb (numbers.min a b) a ≡ true

module _ {F : Type 0} (numbers : Numbers F) where
  open numbers use {max, min}

  abbrev pub clamp : (n low high : F) → F
  clamp n low high = max low (min high n)

module _ {F : Type 0} (numbers : Numbers F) (ordered : IsOrdered numbers) where
  open numbers use {leb, is_nan}

  -- A number other than NaN is clamped to the two bounds.
  pub clamp-between :
      (n low high : F)
      → is_nan n ≡ false
      → is_nan low ≡ false
      → is_nan high ≡ false
      → leb low high ≡ true
      → (leb low (clamp numbers n low high) ≡ true) × (leb (clamp numbers n low high) high ≡ true)
  clamp-between n low high real low_real high_real below = (
    ordered.max_left low _ low_real (ordered.min_real high n high_real real),
    ordered.max_least low _ high below (ordered.min_left high n high_real real),
  )
