-- ===== src/Executor/Outcome.antt =====
-- Exceptions as values.
use cognitive_runtime.Prelude.{Option, none, Text}

-- An `Error` object, with the members that the catch blocks read.
pub record Thrown : Type 0 where
  pub name : Option Text
  pub code : Option Text
  pub message : Text

pub data Outcome {ℓ} (A : Type ℓ) : Type ℓ where
  ok : A → Outcome A
  thrown : Thrown → Outcome A

infixl 5 ◌>>=◌ ◌>>◌
abbrev pub ◌>>=◌ {ℓ κ} : {A : Type ℓ} {B : Type κ} → Outcome A → (A → Outcome B) → Outcome B
ok a >>= f = f a
thrown e >>= f = thrown e

abbrev pub ◌>>◌ {ℓ κ} : {A : Type ℓ} {B : Type κ} → Outcome A → Outcome B → Outcome B
m >> k = m >>= λ _. k

-- `throw new Error(message)`, and with a `code` member.
abbrev pub error : Text → Thrown
error message = record { name = none; code = none; message = message }
