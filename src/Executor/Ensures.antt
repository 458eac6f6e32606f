-- ===== src/Executor/Ensures.antt =====
-- What holds of the value that a call returns, if it returns one.
use mathlib.Core.Bool.{cond}
use cognitive_runtime.Prelude.{Bool, true, false, ◌≡◌, refl}
use cognitive_runtime.Executor.Outcome.{Outcome, ok, thrown}
use cognitive_runtime.Executor.Effects.{State, M, ◌>>=◌, and_then}

abbrev pub OnOk : {A : Type 0} → (A → Type 0) → Outcome A → Type 0
OnOk P (ok a) = P a
OnOk P (thrown e) = Unit

pub record Ensures {W A : Type 0} (P : A → Type 0) (m : M W A) : Type 0 where
  pub returned : (s : State W) → OnOk P (m s).0

any-OnOk : {A : Type 0} (o : Outcome A) → OnOk (λ _. Unit {0}) o
any-OnOk (ok a) = tt
any-OnOk (thrown e) = tt

map-OnOk :
    {A : Type 0} {P Q : A → Type 0} → ((a : A) → P a → Q a) → (o : Outcome A) → OnOk P o → OnOk Q o
map-OnOk f (ok a) h = f a h
map-OnOk f (thrown e) h = tt

module _ {W : Type 0} where
  and_then-OnOk :
      {A B : Type 0} (Q : A → Type 0) (P : B → Type 0) (r : Outcome A × State W) (f : A → M W B)
      → OnOk Q r.0
      → ((a : A) → Q a → Ensures P (f a))
      → OnOk P (and_then r f).0
  unfolding and_then
  and_then-OnOk Q P (ok a, t) f h k = (k a h).returned t
  and_then-OnOk Q P (thrown e, t) f h k = tt

  pub bind-Ensures :
      {A B : Type 0} (Q : A → Type 0) {P : B → Type 0} {m : M W A} {f : A → M W B}
      → Ensures Q m
      → ((a : A) → Q a → Ensures P (f a))
      → Ensures P (m >>= f)
  bind-Ensures Q {P} {m = m} {f = f} h k = record {
    returned = λ s. and_then-OnOk Q P (m s) f (h.returned s) k;
  }

  pub any-Ensures : {A : Type 0} (m : M W A) → Ensures (λ _. Unit {0}) m
  any-Ensures m = record { returned = λ s. any-OnOk (m s).0 }

  -- The test is known in its branch.
  pub cond-Ensures :
      {A : Type 0} (P : A → Type 0) (b : Bool) {m n : M W A}
      → (b ≡ true → Ensures P m)
      → (b ≡ false → Ensures P n)
      → Ensures P (cond b m n)
  cond-Ensures P true h k = h refl
  cond-Ensures P false h k = k refl

  pub map-Ensures :
      {A : Type 0} {P Q : A → Type 0} {m : M W A}
      → ((a : A) → P a → Q a)
      → Ensures P m
      → Ensures Q m
  map-Ensures f h = record { returned = λ s. map-OnOk f _ (h.returned s) }
