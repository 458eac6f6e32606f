-- ===== src/Executor/Returns.antt =====
-- Calls that return: what holds of the value and of the state behind them.
use mathlib.Core.Bool.{cond}
use cognitive_runtime.Prelude.{◌≡◌, refl, ap, Bool, true, false}
use cognitive_runtime.Executor.Outcome.{Outcome, ok, thrown, Thrown}
use cognitive_runtime.Executor.Effects.{State, M, and_then, caught}

-- The outcome is a value, and it and the state satisfy `P`.
pub record Returns {W A : Type 0} (P : A → State W → Type 0) (r : Outcome A × State W)
    : Type 0 where
  pub value : A
  pub state : State W
  pub result : r ≡ (ok value, state)
  pub holds : P value state

module _ {W : Type 0} where
  pub pure-Returns :
      {A : Type 0} (P : A → State W → Type 0) (a : A) (s : State W) → P a s → Returns P (ok a, s)
  pure-Returns P a s h = record { value = a; state = s; result = refl; holds = h }

  pub and_then-Returns :
      {A B : Type 0} (Q : A → State W → Type 0) (P : B → State W → Type 0) {r : Outcome A × State W}
      {f : A → M W B}
      → Returns Q r
      → ((a : A) (t : State W) → Q a t → Returns P (f a t))
      → Returns P (and_then r f)
  unfolding and_then
  and_then-Returns Q P {f = f} h k = rw h.result (k h.value h.state h.holds)

  -- Whatever the block does, its handler returns.
  pub caught-Returns :
      {A : Type 0} (P : A → State W → Type 0) (r : Outcome A × State W) (h : Thrown → M W A)
      → ((a : A) (t : State W) → P a t)
      → ((e : Thrown) (t : State W) → Returns P (h e t))
      → Returns P (caught r h)
  unfolding caught
  caught-Returns P (ok a, t) h p k = pure-Returns P a t (p a t)
  caught-Returns P (thrown e, t) h p k = k e t

  -- The test is known in its branch.
  pub cond-Returns :
      {A : Type 0} (P : A → State W → Type 0) (b : Bool) (m n : M W A) (s : State W)
      → (b ≡ true → Returns P (m s))
      → (b ≡ false → Returns P (n s))
      → Returns P (cond b m n s)
  cond-Returns P true m n s h k = h refl
  cond-Returns P false m n s h k = k refl

  pub map-Returns :
      {A : Type 0} {P Q : A → State W → Type 0} {r : Outcome A × State W}
      → ((a : A) (t : State W) → P a t → Q a t)
      → Returns P r
      → Returns Q r
  map-Returns f h = record {
    value = h.value;
    state = h.state;
    result = h.result;
    holds = f h.value h.state h.holds;
  }

  -- A call that throws does not return.
  pub thrown_ok :
      {A : Type 0} (e : Thrown) (s : State W) (a : A) (t : State W)
      → ¬ (◌≡◌ {A = Outcome A × State W} (thrown e, s) (ok a, t))
  thrown_ok e s a t h = clash (ap (λ r. r.0) h)
    where
      clash : thrown e ≡ ok a → ⊥
      clash h = cc
