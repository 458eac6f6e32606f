-- ===== src/Executor/Order/Members.antt =====
-- The order holds nodes of the DAG, and as many as it has.
use Prim.Native.Nat.{zero, suc}
use mathlib.Core.Path.{subst}
use cognitive_runtime.Prelude.{
  ℕ, ◌==◌, ==_iff, ◌≡◌, refl, Bool, true, false, Bool-cases, inl, inr, if◌then◌else◌, Option, none,
  some, List, [], ◌∷◌, length, All, All-append, In, Text, text_eq, text_lt,
}
use cognitive_runtime.Prelude.Maps.{get, set, has}
use cognitive_runtime.Prelude.Sorting.{sort}
use cognitive_runtime.Contracts.Dag.{DagNode}
use cognitive_runtime.Executor.Outcome.{Outcome, ok, thrown, ◌>>=◌}
use cognitive_runtime.Executor.Order.{
  NodeMap, Degrees, Dependents, index_nodes, check_all_deps, init_degrees, init_dependents,
  fill_dependents, zero_ids, push_node, drain, fuel_for, finish, stable_topological_order,
}

module _ (nodes : List DagNode) where
  abbrev IsNode : DagNode → Type 0
  IsNode n = In n nodes

  abbrev HoldsNodes : NodeMap → Type 0
  HoldsNodes m = All (λ e. IsNode e.1) m

  HoldsNodes-set :
      (k : Text) (n : DagNode) (m : NodeMap) → IsNode n → HoldsNodes m → HoldsNodes (set k n m)
  unfolding set
  HoldsNodes-set k n [] i h = (i, tt)
  HoldsNodes-set k n ((j, w) ∷ m) i (here, rest) = elim (Bool-cases (text_eq j k)) [
    | inl same ↦ rw same (i, rest)
    | inr other ↦ rw other (here, HoldsNodes-set k n m i rest)
  ]

  abbrev IfOk : {A : Type 0} → (A → Type 0) → Outcome A → Type 0
  IfOk P (ok a) = P a
  IfOk P (thrown e) = Unit

  IfOk-if :
      {A : Type 0} (P : A → Type 0) (b : Bool) (x y : Outcome A)
      → IfOk P x
      → IfOk P y
      → IfOk P (if b then x else y)
  IfOk-if P true x y h k = h
  IfOk-if P false x y h k = k

  index_nodes-HoldsNodes :
      (m : NodeMap) (ns : List DagNode)
      → HoldsNodes m
      → All IsNode ns
      → IfOk HoldsNodes (index_nodes m ns)
  unfolding index_nodes
  index_nodes-HoldsNodes m [] h k = h
  index_nodes-HoldsNodes m (n ∷ ns) h (here, rest) =
      IfOk-if HoldsNodes (has n.id m) (thrown _) (index_nodes (set n.id n m) ns) tt
        (index_nodes-HoldsNodes (set n.id n m) ns (HoldsNodes-set n.id n m here h) rest)

  push_node-All :
      (id : Text) (m : NodeMap) (ordered : List DagNode)
      → HoldsNodes m
      → All IsNode ordered
      → All IsNode (push_node (get id m) ordered)
  unfolding get push_node
  push_node-All id [] ordered h k = k
  push_node-All id ((j, w) ∷ m) ordered (here, rest) k = elim (Bool-cases (text_eq j id)) [
    | inl same ↦ rw same (All-append IsNode ordered (w ∷ []) k (here, tt))
    | inr other ↦ rw other (push_node-All id m ordered rest k)
  ]

  abbrev IfSome : (List DagNode → Type 0) → Option (List DagNode) → Type 0
  IfSome P none = Unit
  IfSome P (some a) = P a

  drain-All :
      (m : NodeMap) (dependents : Dependents) (fuel : ℕ) (degrees : Degrees) (ready : List Text)
      (ordered : List DagNode)
      → HoldsNodes m
      → All IsNode ordered
      → IfSome (All IsNode) (drain m dependents fuel degrees ready ordered)
  unfolding drain
  drain-All m dependents fuel degrees [] ordered h k = k
  drain-All m dependents zero degrees (id ∷ ready) ordered h k = tt
  drain-All m dependents (suc fuel) degrees (id ∷ ready) ordered h k =
      drain-All m dependents fuel _ _ (push_node (get id m) ordered) h
        (push_node-All id m ordered h k)

  -- What an order promises.
  pub record IsOrder (ordered : List DagNode) : Type 0 where
    pub members : All IsNode ordered
    pub count : length ordered ≡ length nodes

  finish-IsOrder :
      (o : Option (List DagNode)) → IfSome (All IsNode) o → IfOk IsOrder (finish nodes o)
  unfolding finish
  finish-IsOrder none h = tt
  finish-IsOrder (some ordered) h = elim (Bool-cases (length ordered == length nodes)) [
    | inl same ↦
        rw same (record { members = h; count = (==_iff (length ordered) (length nodes)).0 same })
    | inr other ↦ rw other tt
  ]

  bind-IfOk :
      {A B : Type 0} (P : A → Type 0) (Q : B → Type 0) (o : Outcome A) (f : A → Outcome B)
      → IfOk P o
      → ((a : A) → P a → IfOk Q (f a))
      → IfOk Q (o >>= f)
  bind-IfOk P Q (ok a) f h k = k a h
  bind-IfOk P Q (thrown e) f h k = tt

  any-IfOk : {A : Type 0} (o : Outcome A) → IfOk (λ _. Unit {0}) o
  any-IfOk (ok a) = tt
  any-IfOk (thrown e) = tt

All-weaken :
    {A : Type 0} (P Q : A → Type 0) (xs : List A) → ((a : A) → P a → Q a) → All P xs → All Q xs
All-weaken P Q [] f h = tt
All-weaken P Q (x ∷ xs) f (here, rest) = (f x here, All-weaken P Q xs f rest)

All-In : {A : Type 0} (xs : List A) → All (λ x. In x xs) xs
All-In [] = tt
All-In (x ∷ xs) =
    (inl refl, All-weaken (λ a. In a xs) (λ a. In a (x ∷ xs)) xs (λ a h. inr h) (All-In xs))

IsOrder-IfOk : (nodes : List DagNode) → IfOk nodes (IsOrder nodes) (stable_topological_order nodes)
unfolding stable_topological_order
IsOrder-IfOk nodes =
    bind-IfOk nodes (HoldsNodes nodes) (IsOrder nodes) (index_nodes [] nodes) _
      (index_nodes-HoldsNodes nodes [] nodes tt (All-In nodes))
      λ by_id h.
        bind-IfOk nodes (λ _. Unit {0}) (IsOrder nodes) (check_all_deps by_id nodes) _
          (any-IfOk nodes (check_all_deps by_id nodes))
          λ u v. finish-IsOrder nodes _ (
            drain-All nodes by_id (fill_dependents (init_dependents [] nodes) nodes)
              (fuel_for (init_degrees [] nodes) (sort text_lt (zero_ids (init_degrees [] nodes))))
              (init_degrees [] nodes) (sort text_lt (zero_ids (init_degrees [] nodes))) [] h tt)

-- If stableTopologicalOrder returns an order, then it has as many nodes as the DAG, and each of
-- them is one of the DAG's.
pub stable_topological_order-IsOrder :
    (nodes ordered : List DagNode)
    → stable_topological_order nodes ≡ ok ordered
    → IsOrder nodes ordered
stable_topological_order-IsOrder nodes ordered e =
    subst (λ o. IfOk nodes (IsOrder nodes) o) e (IsOrder-IfOk nodes)
