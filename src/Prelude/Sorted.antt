-- ===== src/Prelude/Sorted.antt =====
-- Sorted lists, and that `sort` gives one.
use mathlib.Core.Path.{◌≡◌}
use mathlib.Core.Logic.{inl, inr}
use mathlib.Core.Bool.{Bool, true, false}
use mathlib.Core.List.{List, [], ◌∷◌}
use Prim.Native.Nat.{ℕ, zero, suc, ◌≤◌}
use native.Mathlib.Omega.{arith}
use cognitive_runtime.Prelude.Tests.{Bool-cases}
use cognitive_runtime.Prelude.Lists.{All, take, length}
use cognitive_runtime.Prelude.Sorting.{insert, insert_all, sort}

abbrev pub IsSorted : {A : Type 0} → (A → A → Type 0) → List A → Type 0
IsSorted le [] = Unit
IsSorted le (x ∷ xs) = All (le x) xs × IsSorted le xs

pub All-take : {A : Type 0} (P : A → Type 0) (n : ℕ) (xs : List A) → All P xs → All P (take n xs)
All-take P zero xs h = tt
All-take P (suc n) [] h = tt
All-take P (suc n) (x ∷ xs) h = (h.0, All-take P n xs h.1)

pub take-IsSorted :
    {A : Type 0} (le : A → A → Type 0) (n : ℕ) (xs : List A)
    → IsSorted le xs
    → IsSorted le (take n xs)
take-IsSorted le zero xs h = tt
take-IsSorted le (suc n) [] h = tt
take-IsSorted le (suc n) (x ∷ xs) h = (All-take (le x) n xs h.0, take-IsSorted le n xs h.1)

pub length-take : {A : Type 0} (n : ℕ) (xs : List A) → length (take n xs) ≤ n
length-take zero xs = omega arith
length-take (suc n) [] = omega arith
length-take (suc n) (x ∷ xs) = omega (arith, length-take n xs)

-- On members with `P`, the comparison decides an order `le`.
pub record Decides {A : Type 0} (lt : A → A → Bool) (P : A → Type 0) (le : A → A → Type 0)
    : Type 0 where
  pub above : (x y : A) → P x → P y → lt x y ≡ true → le x y
  pub below : (x y : A) → P x → P y → lt x y ≡ false → le y x
  pub trans : (x y z : A) → P x → P y → P z → le x y → le y z → le x z

module _ {A : Type 0} {lt : A → A → Bool} {P : A → Type 0} {le : A → A → Type 0}
    (decides : Decides lt P le) where
  insert-All : (Q : A → Type 0) (x : A) (ys : List A) → Q x → All Q ys → All Q (insert lt x ys)
  unfolding insert
  insert-All Q x [] q h = (q, tt)
  insert-All Q x (y ∷ ys) q h = elim (Bool-cases (lt x y)) [
    | inl first ↦ rw first (q, h)
    | inr later ↦ rw later (h.0, insert-All Q x ys q h.1)
  ]

  All-trans :
      (x y : A) (ys : List A) → P x → P y → All P ys → le x y → All (le y) ys → All (le x) ys
  All-trans x y [] px py ps h hs = tt
  All-trans x y (z ∷ ys) px py ps h hs =
      (decides.trans x y z px py ps.0 h hs.0, All-trans x y ys px py ps.1 h hs.1)

  insert-IsSorted :
      (x : A) (ys : List A) → P x → All P ys → IsSorted le ys → IsSorted le (insert lt x ys)
  unfolding insert
  insert-IsSorted x [] px ps h = (tt, tt)
  insert-IsSorted x (y ∷ ys) px ps h = elim (Bool-cases (lt x y)) [
    | inl first ↦ rw first (
      (
        decides.above x y px ps.0 first,
        All-trans x y ys px ps.0 ps.1 (decides.above x y px ps.0 first) h.0,
      ),
      h,
    )
    | inr later ↦ rw later (
      insert-All (le y) x ys (decides.below x y px ps.0 later) h.0,
      insert-IsSorted x ys px ps.1 h.1,
    )
  ]

  insert_all-IsSorted :
      (acc xs : List A)
      → All P acc
      → All P xs
      → IsSorted le acc
      → IsSorted le (insert_all lt acc xs)
  unfolding insert_all
  insert_all-IsSorted acc [] pa ps h = h
  insert_all-IsSorted acc (x ∷ xs) pa ps h =
      insert_all-IsSorted (insert lt x acc) xs (insert-All P x acc ps.0 pa) ps.1
        (insert-IsSorted x acc ps.0 pa h)

  pub sort-IsSorted : (xs : List A) → All P xs → IsSorted le (sort lt xs)
  unfolding sort
  sort-IsSorted xs ps = insert_all-IsSorted [] xs tt ps tt

  insert_all-All : (acc xs : List A) → All P acc → All P xs → All P (insert_all lt acc xs)
  unfolding insert_all
  insert_all-All acc [] pa ps = pa
  insert_all-All acc (x ∷ xs) pa ps =
      insert_all-All (insert lt x acc) xs (insert-All P x acc ps.0 pa) ps.1

  pub sort-All : (xs : List A) → All P xs → All P (sort lt xs)
  unfolding sort
  sort-All xs ps = insert_all-All [] xs tt ps
