-- ===== src/Lifecycle/Failures.antt =====
-- classifyFailedRun of lifecycle.ts: which failed runs may be retried, and which are dead letters.
use cognitive_runtime.Prelude.{
  ℕ, ◌+◌, ◌≤◌, ◌<◌, max, leb, leb→le, length, ◌≡◌, refl, sym, ap, ◌∙◌, ◌↔◌, Bool, true, false, ◌&&◌,
  ◌||◌, Bool-cases, inl, inr, if◌then◌else◌, if_holds, get_or, is_some, List, [], ◌∷◌, any, find,
  keep, Text, text_eq, text_eq_iff, text_eq_refl, text_eq_sym, arith,
}
use cognitive_runtime.Prelude.Maps.{get, set, has, get-set}
use cognitive_runtime.Contracts.EventTypes.{
  is_type, node_failed, run_cancelled, run_cancel_requested, run_stale_detected,
  run_timeout_reached, validation_error, runtime_error,
}
use cognitive_runtime.Contracts.Events.{RunEvent, FailedRunClass, permanent, dead_letter}
use cognitive_runtime.Lifecycle.Classify.{
  RunFailure, node_key, is_policy_block, count_failures, max_value, classify_errors,
  classify_failed_run,
}

abbrev Counts : Type 0
Counts = List (Text × ℕ)

-- No key stands twice.
abbrev IsUnique : Counts → Type 0
unfolding has
IsUnique [] = Unit
IsUnique ((k, v) ∷ m) = (has k m ≡ false) × IsUnique m

has-set : (j k : Text) (v : ℕ) (m : Counts) → has j (set k v m) ≡ (text_eq k j || has j m)
unfolding has set
has-set j k v [] = refl
has-set j k v ((i, w) ∷ m) =
    ground (arith, has-set j k v m, text_eq_iff i k, text_eq_iff i j, text_eq_iff k j)

set-IsUnique : (k : Text) (v : ℕ) (m : Counts) → IsUnique m → IsUnique (set k v m)
unfolding set has
set-IsUnique k v [] u = (refl, tt)
set-IsUnique k v ((i, w) ∷ m) (new, u) = elim (Bool-cases (text_eq i k)) [
  | inl same ↦ rw same (new, u)
  | inr other ↦ rw other (rw (has-set i k v m, text_eq_sym k i, other) new, set-IsUnique k v m u)
]

-- The failures that the events count for a node.
unfoldable pub fails_of : Text → List RunEvent → ℕ
unfolding is_type
fails_of id events =
    length (keep (λ e. is_type e.type node_failed && text_eq (node_key e) id) events)

abbrev count_of : Text → Counts → ℕ
count_of id m = get_or (get id m) 0

count_failures-IsUnique :
    (m : Counts) (events : List RunEvent) → IsUnique m → IsUnique (count_failures m events)
unfolding count_failures
count_failures-IsUnique m [] u = u
count_failures-IsUnique m (e ∷ es) u = elim (Bool-cases (is_type e.type node_failed)) [
  | inl failed ↦ rw failed (
      count_failures-IsUnique (set (node_key e) (count_of (node_key e) m + 1) m) es
        (set-IsUnique (node_key e) _ m u))
  | inr other ↦ rw other (count_failures-IsUnique m es u)
]

count_of-set :
    (k id : Text) (m : Counts)
    → count_of id (set k (count_of k m + 1) m)
      ≡ (if text_eq k id then count_of id m + 1 else count_of id m)
count_of-set k id m = elim (Bool-cases (text_eq k id)) [
  | inl same ↦ rw (get-set k id, same, (text_eq_iff k id).0 same) refl
  | inr other ↦ rw (get-set k id, other) refl
]

-- The map holds the counts.
count_of-count_failures :
    (id : Text) (m : Counts) (events : List RunEvent)
    → count_of id (count_failures m events) ≡ count_of id m + fails_of id events
unfolding count_failures fails_of
count_of-count_failures id m [] = omega arith
count_of-count_failures id m (e ∷ es) = elim (Bool-cases (is_type e.type node_failed)) [
  | inl failed ↦ rw failed (
      count_of-count_failures id (set (node_key e) (count_of (node_key e) m + 1) m) es
      ∙ rw (count_of-set (node_key e) id m) (ground arith))
  | inr other ↦ rw other (count_of-count_failures id m es)
]

-- The greatest value is one of the counts, and no count exceeds it.
count_of-le-max_value : (id : Text) (m : Counts) → count_of id m ≤ max_value m
unfolding get max_value
count_of-le-max_value id [] = omega arith
count_of-le-max_value id ((k, v) ∷ m) = elim (Bool-cases (text_eq k id)) [
  | inl same ↦ rw same (omega arith)
  | inr other ↦ rw other (omega (arith, count_of-le-max_value id m))
]

missing_count : (k : Text) (m : Counts) → has k m ≡ false → count_of k m ≡ 0
unfolding get has
missing_count k [] h = refl
missing_count k ((j, v) ∷ m) h = elim (Bool-cases (text_eq j k)) [
  | inl same ↦ absurd (true_false (rw same at h))
  | inr other ↦ rw other (missing_count k m (rw other at h))
]
  where
    true_false : true ≡ false → ⊥
    true_false e = cc

max_value-attained :
    (m : Counts) → IsUnique m → 1 ≤ max_value m → (id : Text) × (count_of id m ≡ max_value m)
unfolding get max_value IsUnique
max_value-attained [] u h = absurd (omega arith)
max_value-attained ((k, v) ∷ m) (new, u) h = elim (Bool-cases (leb (max_value m) v)) [
  | inl top ↦ (k, rw (text_eq_refl k) (omega (arith, leb→le _ _ top)))
  | inr below ↦ from_rest (max_value-attained m u (ground arith)) (ground arith)
]
  where
    from_rest :
        ((id : Text) × (count_of id m ≡ max_value m))
        → v < max_value m
        → (id : Text) × (count_of id ((k, v) ∷ m) ≡ max v (max_value m))
    from_rest (id, e) lower = elim (Bool-cases (text_eq k id)) [
      | inl same ↦ absurd (
          omega
            (arith, e, missing_count k m new, ap (λ i. count_of i m) ((text_eq_iff k id).0 same)))
      | inr other ↦ (id, rw other (omega (arith, e)))
    ]

-- A node has failed at least `n` times.
abbrev pub HasFailed : ℕ → List RunEvent → Type 0
HasFailed n events = (id : Text) × (n ≤ fails_of id events)

max_value_iff :
    (events : List RunEvent)
    → (leb 2 (max_value (count_failures [] events)) ≡ true) ↔ HasFailed 2 events
unfolding get IsUnique
max_value_iff events = (reached, bounded)
  where
    reached : leb 2 (max_value (count_failures [] events)) ≡ true → HasFailed 2 events
    reached h =
        let (id, e) =
          max_value-attained (count_failures [] events) (count_failures-IsUnique [] events tt)
            (omega (arith, leb→le 2 _ h)) in
        (id, omega (arith, e, leb→le 2 _ h, count_of-count_failures id [] events))

    bounded : HasFailed 2 events → leb 2 (max_value (count_failures [] events)) ≡ true
    bounded (id, l) = ground (
      arith,
      l,
      count_of-count_failures id [] events,
      count_of-le-max_value id (count_failures [] events),
    )

blocked_found :
    (events : List RunEvent) → is_some (find is_policy_block events) ≡ any is_policy_block events
blocked_found [] = refl
blocked_found (e ∷ es) = elim (Bool-cases (is_policy_block e)) [
  | inl here ↦ rw here refl
  | inr other ↦ rw other (blocked_found es)
]

abbrev is_retriable : FailedRunClass → Bool
is_retriable FailedRunClass.transient = true
is_retriable FailedRunClass.stale = true
is_retriable _ = false

-- The flag agrees with the class.
pub record IsConsistent (r : RunFailure) : Type 0 where
  pub agrees : r.retriable ≡ is_retriable r.classification

consistent :
    (c : FailedRunClass) (t : Text)
    → IsConsistent (record { classification = c; reason = t; retriable = is_retriable c })
consistent c t = record { agrees = refl }

classify_errors-IsConsistent : (events : List RunEvent) → IsConsistent (classify_errors events)
unfolding classify_errors
classify_errors-IsConsistent events = if_holds IsConsistent _ (consistent dead_letter _) (
    if_holds IsConsistent _ (consistent FailedRunClass.transient _)
      (consistent FailedRunClass.transient _))

-- Over any events, a failed run may be retried exactly if its class is TRANSIENT or STALE.
pub classify_failed_run-IsConsistent :
    (events : List RunEvent) → IsConsistent (classify_failed_run events)
unfolding classify_failed_run
classify_failed_run-IsConsistent events =
    if_holds IsConsistent _ (consistent FailedRunClass.cancelled _) (
      if_holds IsConsistent _ (consistent FailedRunClass.stale _) (
        if_holds IsConsistent _ (consistent FailedRunClass.transient _) (
          if_holds IsConsistent (is_some (find is_policy_block events)) (consistent permanent _) (
            if_holds IsConsistent (any (λ e. is_type e.type validation_error) events)
              (consistent permanent _) (classify_errors-IsConsistent events)))))

-- No event decides the class before the failures are counted: neither a cancellation, nor a stale
-- worker, a timeout, a block by the policy or a validation error.
pub record IsUndecided (events : List RunEvent) : Type 0 where
  pub not_cancelled :
      any (λ e. is_type e.type run_cancelled || is_type e.type run_cancel_requested) events ≡ false
  pub not_stale : any (λ e. is_type e.type run_stale_detected) events ≡ false
  pub not_late : any (λ e. is_type e.type run_timeout_reached) events ≡ false
  pub not_blocked : any is_policy_block events ≡ false
  pub not_invalid : any (λ e. is_type e.type validation_error) events ≡ false

classify_errors-dead_letter :
    (events : List RunEvent)
    → ((classify_errors events).classification ≡ dead_letter) ↔ HasFailed 2 events
unfolding classify_errors
classify_errors-dead_letter events =
    elim (Bool-cases (leb 2 (max_value (count_failures [] events)))) [
      | inl many ↦ rw many (λ h. (max_value_iff events).0 many, λ h. refl)
      | inr few ↦ rw few (
        λ h. absurd (
            if_holds (λ (r : RunFailure). ¬ (r.classification ≡ dead_letter))
              (any (λ e. is_type e.type runtime_error) events) other_class other_class h),
        λ h. absurd (clash (sym few ∙ (max_value_iff events).1 h)),
      )
    ]
  where
    clash : false ≡ true → ⊥
    clash e = cc

    other_class : FailedRunClass.transient ≡ dead_letter → ⊥
    other_class e = cc

-- Where no event decides the class at once, a failed run is a dead letter exactly if some node has
-- at least two NODE_FAILED events.
pub classify_failed_run-dead_letter :
    (events : List RunEvent)
    → IsUndecided events
    → ((classify_failed_run events).classification ≡ dead_letter) ↔ HasFailed 2 events
unfolding classify_failed_run
classify_failed_run-dead_letter events u =
    rw
      (u.not_cancelled, u.not_stale, u.not_late, blocked_found events, u.not_blocked, u.not_invalid)
      (classify_errors-dead_letter events)
