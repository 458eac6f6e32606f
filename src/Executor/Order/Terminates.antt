-- ===== src/Executor/Order/Terminates.antt =====
-- The loop of stableTopologicalOrder ends.
use Prim.Native.Nat.{zero, suc}
use cognitive_runtime.Prelude.{
  ℕ, ◌+◌, ◌≤◌, ◌≡◌, refl, ◌∙◌, Bool, true, Bool-cases, inl, inr, if◌then◌else◌, is_some, get_or,
  List, [], ◌∷◌, ◌++◌, length, length-append, Text, text_eq, text_lt, ℤ, pos, negsuc, pos_part,
  pred_ℤ, is_zero, arith,
}
use cognitive_runtime.Prelude.Maps.{get, set}
use cognitive_runtime.Prelude.Sorting.{sort, insert, insert_all, length-insert}
use cognitive_runtime.Contracts.Dag.{DagNode}
use cognitive_runtime.Executor.Order.{
  NodeMap, Degrees, Dependents, Frontier, relax_one, relax, drain, total, fuel_for,
}

length-insert_all :
    {A : Type 0} (lt : A → A → Bool) (acc xs : List A)
    → length (insert_all lt acc xs) ≡ length acc + length xs
unfolding insert_all
length-insert_all lt acc [] = omega arith
length-insert_all lt acc (x ∷ xs) =
    length-insert_all lt (insert lt x acc) xs ∙ omega (arith, length-insert lt x acc)

length-sort : {A : Type 0} (lt : A → A → Bool) (xs : List A) → length (sort lt xs) ≡ length xs
unfolding sort
length-sort lt xs = length-insert_all lt [] xs ∙ omega arith

-- The in-degree of an id, as the loop reads it.
abbrev degree : Text → Degrees → ℤ
degree id m = get_or (get id m) (pos 0)

total-set :
    (id : Text) (v : ℤ) (m : Degrees)
    → total (set id v m) + pos_part (degree id m) ≡ total m + pos_part v
unfolding total set get
total-set id v [] = omega arith
total-set id v ((j, d) ∷ m) = elim (Bool-cases (text_eq j id)) [
  | inl same ↦ rw same (omega arith)
  | inr other ↦ rw other (omega (arith, total-set id v m))
]

-- The rounds that a frontier may still need.
abbrev measure : Frontier → ℕ
measure f = length f.ready + total f.degrees

-- What one edge does to an in-degree, and to the ready list.
pred-pos_part : (d : ℤ) → (if is_zero (pred_ℤ d) then 1 else 0) + pos_part (pred_ℤ d) ≤ pos_part d
pred-pos_part (pos zero) = omega arith
pred-pos_part (pos (suc zero)) = omega arith
pred-pos_part (pos (suc (suc n))) = omega arith
pred-pos_part (negsuc n) = omega arith

relax_one-measure : (out : Text) (f : Frontier) → measure (relax_one out f) ≤ measure f
unfolding relax_one
relax_one-measure out f = elim (Bool-cases (is_zero (pred_ℤ (degree out f.degrees)))) [
  | inl ready ↦ rw ready (
      omega (
        arith,
        total-set out (pred_ℤ (degree out f.degrees)) f.degrees,
        rw ready at (pred-pos_part (degree out f.degrees)),
        length-sort text_lt (f.ready ++ out ∷ []),
        length-append f.ready (out ∷ []),
      ))
  | inr waits ↦ rw waits (
      omega (
        arith,
        total-set out (pred_ℤ (degree out f.degrees)) f.degrees,
        rw waits at (pred-pos_part (degree out f.degrees)),
      ))
]

relax-measure : (outs : List Text) (f : Frontier) → measure (relax outs f) ≤ measure f
unfolding relax
relax-measure [] f = omega arith
relax-measure (out ∷ outs) f =
    omega (arith, relax-measure outs (relax_one out f), relax_one-measure out f)

drain-within :
    (by_id : NodeMap) (dependents : Dependents) (fuel : ℕ) (degrees : Degrees) (ready : List Text)
    (ordered : List DagNode)
    → length ready + total degrees ≤ fuel
    → is_some (drain by_id dependents fuel degrees ready ordered) ≡ true
unfolding drain
drain-within by_id dependents fuel degrees [] ordered h = refl
drain-within by_id dependents zero degrees (id ∷ ready) ordered h = absurd (omega arith)
drain-within by_id dependents (suc fuel) degrees (id ∷ ready) ordered h =
    drain-within by_id dependents fuel _ _ _ (
      omega (
        arith,
        relax-measure (sort text_lt (get_or (get id dependents) []))
            (record { degrees = degrees; ready = ready }),
      ))

-- Whatever the in-degrees, the dependents and the ready ids are, the loop that orders the nodes
-- ends within as many rounds as there are ready ids and unmet dependencies.
pub drain-terminates :
    (by_id : NodeMap) (dependents : Dependents) (degrees : Degrees) (ready : List Text)
    (ordered : List DagNode)
    → is_some (drain by_id dependents (fuel_for degrees ready) degrees ready ordered) ≡ true
unfolding fuel_for
drain-terminates by_id dependents degrees ready ordered =
    drain-within by_id dependents (fuel_for degrees ready) degrees ready ordered (omega arith)
