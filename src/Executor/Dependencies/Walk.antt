-- ===== src/Executor/Dependencies/Walk.antt =====
-- A node succeeds only behind its dependencies: the loop of executeDag over the ordered nodes.
use cognitive_runtime.Prelude.{
  ◌≡◌, refl, sym, ap, ◌∙◌, true, false, not, Bool-cases, ◌⊎◌, inl, inr, List, [], ◌∷◌, any, All, In,
  Text, text_eq, text_eq_iff, if◌then◌else◌, arith,
}
use cognitive_runtime.Prelude.Maps.{get, set, get-set}
use cognitive_runtime.Contracts.Dag.{NodeStatus, DagNode, DagSpec}
use cognitive_runtime.Contracts.Events.{RunEvent}
use cognitive_runtime.Executor.Effects.{Services, M, pure}
use cognitive_runtime.Executor.Nodes.{NodeExecContext}
use cognitive_runtime.Executor.Progress.{Progress, is_succeeded, dep_failed}
use cognitive_runtime.Executor.Run.{resume_attempt, goes_on, run_nodes}
use cognitive_runtime.Executor.Ensures.{Ensures, bind-Ensures, cond-Ensures, map-Ensures}
use cognitive_runtime.Executor.Dependencies.{IsFrame, skip_node-Skips, start_node-Frames}

abbrev pub IsDone : Progress → Text → Type 0
IsDone p id = is_succeeded p id ≡ true

-- `id` names one of the nodes, and all that this node depends on has succeeded.
abbrev pub IsBehind : List DagNode → Progress → Text → Type 0
IsBehind ns q id = (n : DagNode) × In n ns × (n.id ≡ id) × All (IsDone q) n.depends_on

-- What has succeeded stays so, and what succeeds on the way does so behind its dependencies.
pub record Walks (ns : List DagNode) (p q : Progress) : Type 0 where
  pub kept : (id : Text) → IsDone p id → IsDone q id
  pub behind : (id : Text) → IsDone q id → IsDone p id ⊎ IsBehind ns q id

All-map :
    {A : Type 0} (P Q : A → Type 0) → ((a : A) → P a → Q a) → (xs : List A) → All P xs → All Q xs
All-map P Q f [] h = tt
All-map P Q f (x ∷ xs) h = (f x h.0, All-map P Q f xs h.1)

All-IsDone :
    (p : Progress) (ids : List Text)
    → any (λ d. not (is_succeeded p d)) ids ≡ false
    → All (IsDone p) ids
All-IsDone p [] h = tt
All-IsDone p (id ∷ ids) h = (ground arith, All-IsDone p ids (ground arith))

Walks-same : (ns : List DagNode) (p : Progress) → Walks ns p p
Walks-same ns p = record { kept = λ id h. h; behind = λ id h. inl h }

-- One node, then the others.
Walks-step :
    (n : DagNode) (ns : List DagNode) (p q r : Progress)
    → Walks (n ∷ []) p q
    → Walks ns q r
    → Walks (n ∷ ns) p r
Walks-step n ns p q r a b = record {
  kept = λ id h. b.kept id (a.kept id h);
  behind = λ id h. elim (b.behind id h) [
    | inr (m, i, e, d) ↦ inr (m, inr i, e, d)
    | inl h' ↦ elim (a.behind id h') [
      | inl h'' ↦ inl h''
      | inr (m, i, e, d) ↦
          inr (m, inl (first m i), e, All-map (IsDone q) (IsDone r) b.kept m.depends_on d)
    ]
  ];
}
  where
    first : (m : DagNode) → In m (n ∷ []) → n ≡ m
    first m (inl e) = e
    first m (inr i) = absurd i

same_done :
    (p q : Progress) (id : Text)
    → get id q.status ≡ get id p.status
    → is_succeeded q id ≡ is_succeeded p id
unfolding is_succeeded
same_done p q id e = rw e refl

other_node :
    (p : Progress) (a b : Text) → is_succeeded p a ≡ false → IsDone p b → text_eq a b ≡ false
other_node p a b fresh h = elim (Bool-cases (text_eq a b)) [
  | inl same ↦ absurd (false-true (sym fresh ∙ ap (is_succeeded p) ((text_eq_iff a b).0 same) ∙ h))
  | inr other ↦ other
]
  where
    false-true : false ≡ true → ⊥
    false-true e = cc

-- A node that had not succeeded, behind dependencies that have.
started-Walks :
    (n : DagNode) (p q : Progress)
    → is_succeeded p n.id ≡ false
    → dep_failed p n ≡ false
    → IsFrame n.id p.status q.status
    → Walks (n ∷ []) p q
unfolding dep_failed
started-Walks n p q fresh deps frame = record {
  kept = kept;
  behind = λ id h. elim (Bool-cases (text_eq n.id id)) [
    | inl same ↦ inr (
      n,
      inl refl,
      (text_eq_iff n.id id).0 same,
      All-map (IsDone p) (IsDone q) kept n.depends_on (All-IsDone p n.depends_on deps),
    )
    | inr other ↦ inl (sym (same_done p q id (frame id other)) ∙ h)
  ];
}
  where
    kept : (id : Text) → IsDone p id → IsDone q id
    kept id h = same_done p q id (frame id (other_node p n.id id fresh h)) ∙ h

done-set_skipped :
    (n : DagNode) (p q : Progress) (id : Text)
    → q.status ≡ set n.id NodeStatus.skipped p.status
    → is_succeeded q id ≡ (if text_eq n.id id then false else is_succeeded p id)
unfolding is_succeeded
done-set_skipped n p q id e = elim (Bool-cases (text_eq n.id id)) [
  | inl same ↦ rw (e, get-set n.id id, same) refl
  | inr other ↦ rw (e, get-set n.id id, other) refl
]

skipped-Walks :
    (n : DagNode) (p q : Progress)
    → is_succeeded p n.id ≡ false
    → q.status ≡ set n.id NodeStatus.skipped p.status
    → Walks (n ∷ []) p q
skipped-Walks n p q fresh e = record {
  kept = λ id h. ground (arith, done-set_skipped n p q id e, other_node p n.id id fresh h);
  behind = λ id h. inl (ground (arith, done-set_skipped n p q id e));
}

module _ {W : Type 0} (services : Services W) (ctx : NodeExecContext) (dag : DagSpec) where
  Walks-from :
      (n : DagNode) (ns : List DagNode) (p q : Progress) (m : M W Progress)
      → Walks (n ∷ []) p q
      → Ensures (Walks ns q) m
      → Ensures (Walks (n ∷ ns) p) m
  Walks-from n ns p q m a b = map-Ensures (λ r. Walks-step n ns p q r a) b

  Walks-stop :
      (n : DagNode) (ns : List DagNode) (p q : Progress)
      → Walks (n ∷ []) p q
      → Ensures {W = W} (Walks (n ∷ ns) p) (pure q)
  Walks-stop n ns p q a = record { returned = λ s. Walks-step n ns p q q a (Walks-same ns q) }

  -- If the loop over the nodes returns, then whatever had succeeded before it still has, and
  -- whatever has succeeded now had so before, or is one of the nodes and all its dependencies have
  -- succeeded.
  pub run_nodes-Walks :
      (events : List RunEvent) (ns : List DagNode) (p : Progress)
      → Ensures (Walks ns p) (run_nodes services ctx dag events ns p)
  unfolding run_nodes
  run_nodes-Walks events [] p = record { returned = λ s. Walks-same [] p }
  run_nodes-Walks events (n ∷ ns) p =
      cond-Ensures _ (is_succeeded p n.id)
        (λ done. Walks-from n ns p p _ (Walks-weak p) (run_nodes-Walks events ns p))
        (λ fresh.
          cond-Ensures _ (dep_failed p n)
            (λ failed. bind-Ensures _ (skip_node-Skips services ctx dag n p) λ q e.
              Walks-from n ns p q _ (skipped-Walks n p q fresh e) (run_nodes-Walks events ns q))
            (λ deps. bind-Ensures _ (start_node-Frames services ctx dag n _ p) λ q frame.
              let a = started-Walks n p q fresh deps frame in
              cond-Ensures _
                (goes_on services ctx dag n (resume_attempt services ctx dag events n) q)
                (λ u. Walks-from n ns p q _ a (run_nodes-Walks events ns q))
                (λ u. Walks-stop n ns p q a)))
    where
      Walks-weak : (p : Progress) → Walks (n ∷ []) p p
      Walks-weak p = record { kept = λ id h. h; behind = λ id h. inl h }
