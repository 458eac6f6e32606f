-- ===== src/Prelude/Sorting.antt =====
-- `Array.prototype.sort` as a stable insertion sort over a strict order.
use Prim.Native.Nat.{suc}
use mathlib.Core.Path.{◌≡◌, refl}
use mathlib.Core.Bool.{Bool}
use mathlib.Core.List.{List, [], ◌∷◌}
use native.Mathlib.Omega.{arith}
use cognitive_runtime.Prelude.Tests.{if◌then◌else◌}
use cognitive_runtime.Prelude.Lists.{length}

module _ {ℓ} {A : Type ℓ} (lt : A → A → Bool) where
  -- Puts `x` behind the members that are not above it.
  unfoldable pub insert : A → List A → List A
  insert x [] = x ∷ []
  insert x (y ∷ ys) = if lt x y then x ∷ y ∷ ys else y ∷ insert x ys

  unfoldable pub insert_all : List A → List A → List A
  unfolding insert
  insert_all acc [] = acc
  insert_all acc (x ∷ xs) = insert_all (insert x acc) xs

  unfoldable pub sort : List A → List A
  unfolding insert_all
  sort xs = insert_all [] xs

  pub length-insert : (x : A) (ys : List A) → length (insert x ys) ≡ suc (length ys)
  unfolding insert
  length-insert x [] = refl
  length-insert x (y ∷ ys) = ground (arith, length-insert x ys)
