-- ===== src/Reward/Attempts.antt =====
-- The rework penalty counts the highest attempt, whichever node made it.
use cognitive_runtime.Prelude.{
  ℕ, ◌≤◌, max, ltb, ◌≡◌, ◌∙◌, Bool-cases, inl, inr, if◌then◌else◌, Option, none, some, get_or, List,
  [], ◌∷◌, Text, text_eq, arith,
}
use cognitive_runtime.Prelude.Maps.{get, set}
use cognitive_runtime.Contracts.EventTypes.{is_type, node_started}
use cognitive_runtime.Contracts.Events.{RunEvent}
use cognitive_runtime.Reward.{named_attempt, note_attempt, attempts_by_node, max_attempts}

abbrev attempt_or_zero : Option (Text × ℕ) → ℕ
attempt_or_zero none = 0
attempt_or_zero (some (id, attempt)) = attempt

-- The highest attempt among the NODE_STARTED events of named nodes, and 0 without one.
unfoldable pub highest_attempt : List RunEvent → ℕ
unfolding is_type
highest_attempt [] = 0
highest_attempt (e ∷ es) =
    max
      (if is_type e.type node_started
        then attempt_or_zero (named_attempt e.payload.node_id e.payload.attempt)
        else 0)
      (highest_attempt es)

max_attempts-max : (h : ℕ) (m : List (Text × ℕ)) → max_attempts h m ≡ max h (max_attempts 0 m)
unfolding max_attempts
max_attempts-max h [] = omega arith
max_attempts-max h ((id, v) ∷ m) =
    ground (arith, max_attempts-max v m, max_attempts-max h m, max_attempts-max 0 m)

get-le-max_attempts : (id : Text) (m : List (Text × ℕ)) → get_or (get id m) 0 ≤ max_attempts 0 m
unfolding get max_attempts
get-le-max_attempts id [] = omega arith
get-le-max_attempts id ((k, v) ∷ m) = ground (arith, max_attempts-max v m, get-le-max_attempts id m)

max_attempts-set :
    (id : Text) (v : ℕ) (m : List (Text × ℕ))
    → get_or (get id m) 0 ≤ v
    → max_attempts 0 (set id v m) ≡ max v (max_attempts 0 m)
unfolding get set max_attempts
max_attempts-set id v [] h = ground arith
max_attempts-set id v ((k, u) ∷ m) h = elim (Bool-cases (text_eq k id)) [
  | inl same ↦ rw same (ground (arith, rw same at h, max_attempts-max v m, max_attempts-max u m))
  | inr other ↦ rw other (
      ground (
        arith,
        max_attempts-max u (set id v m),
        max_attempts-max u m,
        max_attempts-set id v m (rw other at h),
      ))
]

max_attempts-note :
    (a : Option (Text × ℕ)) (m : List (Text × ℕ))
    → max_attempts 0 (note_attempt a m) ≡ max (attempt_or_zero a) (max_attempts 0 m)
unfolding get set
max_attempts-note none m = omega arith
max_attempts-note (some (id, v)) m = elim (Bool-cases (ltb (get_or (get id m) 0) v)) [
  | inl above ↦ rw above (max_attempts-set id v m (ground arith))
  | inr within ↦ rw within (ground (arith, get-le-max_attempts id m))
]

attempts-highest :
    (m : List (Text × ℕ)) (events : List RunEvent)
    → max_attempts 0 (attempts_by_node m events) ≡ max (max_attempts 0 m) (highest_attempt events)
unfolding attempts_by_node highest_attempt
attempts-highest m [] = omega arith
attempts-highest m (e ∷ es) = elim (Bool-cases (is_type e.type node_started)) [
  | inl started ↦ rw started (
      attempts-highest (note_attempt (named_attempt e.payload.node_id e.payload.attempt) m) es
      ∙ rw (max_attempts-note (named_attempt e.payload.node_id e.payload.attempt) m) (omega arith))
  | inr other ↦ rw other (attempts-highest m es ∙ omega arith)
]

-- The map from nodes to attempts makes no difference to the penalty: its greatest value, which is
-- at least 1, is the highest attempt of any NODE_STARTED event of a named node.
pub max_attempts-highest :
    (events : List RunEvent)
    → max_attempts 1 (attempts_by_node [] events) ≡ max 1 (highest_attempt events)
unfolding max_attempts
max_attempts-highest events =
    max_attempts-max 1 (attempts_by_node [] events) ∙ rw (attempts-highest [] events) (omega arith)
