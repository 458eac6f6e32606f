-- ===== src/Executor/Derive/Resume.antt =====
-- The attempt at which a run goes on with a node.
use cognitive_runtime.Prelude.{
  ℕ, ◌+◌, ◌≤◌, max, ◌==◌, ◌≡◌, refl, sym, ==_iff, Bool, true, false, Bool-cases, ◌⊎◌, inl, inr,
  List, [], ◌∷◌, ◌++◌, any, keep, arith,
}
use cognitive_runtime.Contracts.Dag.{DagNode}
use cognitive_runtime.Contracts.Events.{RunEvent}
use cognitive_runtime.Executor.Derive.{
  DerivedNodeState, has_num, max_of, derive_node_state, in_flight, choose_attempt_for_resume,
}

has_num-le-max_of : (a : ℕ) (s : List ℕ) → has_num a s ≡ true → a ≤ max_of s
unfolding max_of
has_num-le-max_of a [] h = cc
has_num-le-max_of a (b ∷ s) h = ground (arith, has_num-le-max_of a s)

-- A number above all members is no member.
above_max_of : (a : ℕ) (s : List ℕ) → max_of s + 1 ≤ a → has_num a s ≡ false
above_max_of a s h = elim (Bool-cases (has_num a s)) [
  | inl m ↦ absurd (omega (arith, has_num-le-max_of a s m))
  | inr n ↦ n
]

max_of-append : (s t : List ℕ) → max_of (s ++ t) ≡ max (max_of s) (max_of t)
unfolding max_of
max_of-append [] t = omega arith
max_of-append (a ∷ s) t = omega (arith, max_of-append s t)

max_of-mem : (s : List ℕ) → any (λ _. true) s ≡ true → has_num (max_of s) s ≡ true
unfolding max_of
max_of-mem [] h = cc
max_of-mem (a ∷ []) h = ground arith
max_of-mem (a ∷ b ∷ s) h = ground (arith, max_of-mem (b ∷ s) refl)

has_num-keep :
    (p : ℕ → Bool) (a : ℕ) (s : List ℕ)
    → has_num a (keep p s) ≡ true
    → (p a ≡ true) × (has_num a s ≡ true)
has_num-keep p a [] h = cc
has_num-keep p a (b ∷ s) h = elim (Bool-cases (p b)) [
  | inl kept ↦ elim (Bool-cases (b == a)) [
    | inl same ↦ (rw (sym ((==_iff b a).0 same)) kept, ground arith)
    | inr other ↦ (ground (arith, has_num-keep p a s), ground (arith, has_num-keep p a s))
  ]
  | inr dropped ↦ (ground (arith, has_num-keep p a s), ground (arith, has_num-keep p a s))
]

parts-le-max_of :
    (s t u : List ℕ) → (max_of t ≤ max_of (s ++ (t ++ u))) × (max_of u ≤ max_of (s ++ (t ++ u)))
parts-le-max_of s t u = (
  omega (arith, max_of-append s (t ++ u), max_of-append t u),
  omega (arith, max_of-append s (t ++ u), max_of-append t u),
)

-- No attempt that a state knows of exceeds the greatest one seen.
abbrev IsBounded : DerivedNodeState → Type 0
IsBounded st =
    (max_of st.failed_attempts ≤ st.max_attempt_seen)
    × (max_of st.succeeded_attempts ≤ st.max_attempt_seen)

derive_node_state-IsBounded :
    (node : DagNode) (events : List RunEvent) → IsBounded (derive_node_state node events)
unfolding derive_node_state
derive_node_state-IsBounded node events = parts-le-max_of _ _ _

-- What the next attempt must be.
pub record IsFresh (st : DerivedNodeState) (a : ℕ) : Type 0 where
  pub positive : 1 ≤ a
  pub not_failed : has_num a st.failed_attempts ≡ false
  pub not_succeeded : has_num a st.succeeded_attempts ≡ false
  pub started_or_next : (has_num a st.started_attempts ≡ true) ⊎ (a ≡ st.max_attempt_seen + 1)

choose-IsFresh : (st : DerivedNodeState) → IsBounded st → IsFresh st (choose_attempt_for_resume st)
unfolding choose_attempt_for_resume in_flight
choose-IsFresh st (f, u) = elim (Bool-cases (any (λ _. true) (in_flight st))) [
  | inl some_flight ↦
      let (test, started) = has_num-keep _ _ st.started_attempts (max_of-mem _ some_flight) in
      rw some_flight (record {
        positive = ground arith;
        not_failed = ground arith;
        not_succeeded = ground arith;
        started_or_next = inl started;
      })
  | inr none_flight ↦ rw none_flight (record {
    positive = omega arith;
    not_failed = above_max_of (st.max_attempt_seen + 1) st.failed_attempts (omega arith);
    not_succeeded = above_max_of (st.max_attempt_seen + 1) st.succeeded_attempts (omega arith);
    started_or_next = inr refl;
  })
]

-- Whatever events are stored, the attempt at which a run resumes a node is at least 1, has neither
-- failed nor succeeded, and either was started before or is the one behind the greatest attempt
-- seen.
pub resume-IsFresh :
    (node : DagNode) (events : List RunEvent)
    → IsFresh
        (derive_node_state node events)
        (choose_attempt_for_resume (derive_node_state node events))
resume-IsFresh node events = choose-IsFresh _ (derive_node_state-IsBounded node events)
