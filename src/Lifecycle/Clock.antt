-- ===== src/Lifecycle/Clock.antt =====
-- The limits of the configuration, the timeout and the heartbeat of lifecycle.ts.
use Prim.Native.Nat.{zero, suc}
use cognitive_runtime.Prelude.{
  ℕ, ◌+◌, ◌≤◌, ◌<◌, leb, ◌≡◌, refl, ◌↔◌, true, false, Bool-cases, inl, inr, if◌then◌else◌, Option,
  none, some, List, [], ◌∷◌, ◌++◌, Option-cases, Text, text, ℤ, pos, negsuc, arith,
}
use cognitive_runtime.Contracts.EventTypes.{is_type, worker_started}
use cognitive_runtime.Contracts.Events.{RunEvent}
use cognitive_runtime.Lifecycle.{
  Phase7Config, create_phase7_config, number_of, or_num, or_text, at_least, exceeds, minus,
  scan_timed_out, is_run_timed_out, get_elapsed_since_start, is_pulse, last_pulse,
  is_heartbeat_stale,
}

-- What a configuration promises, with the number that the timeout's variable holds.
pub record IsSafe (raw : Option ℤ) (c : Phase7Config) : Type 0 where
  pub loops_low : 1 ≤ c.max_planner_loops
  pub loops_high : c.max_planner_loops ≤ 10
  pub disabled : (c.run_timeout_ms ≡ 0) ↔ ((n : ℕ) × (raw ≡ some (negsuc n)))

zero-at_least :
    (raw : Option ℤ) → (at_least 0 (or_num raw 300000) ≡ 0) ↔ ((n : ℕ) × (raw ≡ some (negsuc n)))
zero-at_least none = (λ h. absurd (omega arith), λ h. cc)
zero-at_least (some (pos zero)) = (λ h. absurd (omega arith), λ h. cc)
zero-at_least (some (pos (suc n))) = (λ h. absurd (omega arith), λ h. cc)
zero-at_least (some (negsuc n)) = (λ h. (n, refl), λ h. refl)

one-le-at_least : (v : ℤ) → 1 ≤ at_least 1 v
one-le-at_least (pos n) = omega arith
one-le-at_least (negsuc n) = omega arith

-- Whatever the environment holds, the number of planner loops is 1 to 10, and the timeout is 0,
-- which disables it, exactly if the variable RUN_TIMEOUT_MS holds a negative number.
pub create_phase7_config-IsSafe :
    (parse_int : Text → Option ℤ) (env : Text → Option Text)
    → IsSafe
        (parse_int (or_text (env (text "RUN_TIMEOUT_MS")) (text "300000")))
        (create_phase7_config parse_int env)
unfolding create_phase7_config
create_phase7_config-IsSafe parse_int env = record {
  loops_low =
      omega
        (arith, one-le-at_least (number_of parse_int env (text "MAX_PLANNER_LOOPS") (text "3") 3));
  loops_high = omega arith;
  disabled = zero-at_least (parse_int (or_text (env (text "RUN_TIMEOUT_MS")) (text "300000")));
}

-- More time than the limit has passed.
abbrev pub IsOver : Option ℤ → ℕ → Type 0
IsOver elapsed limit = (n : ℕ) × (elapsed ≡ some (pos n)) × (limit < n)

some_pos_inj : (a b : ℕ) → some (pos a) ≡ some (pos b) → a ≡ b
some_pos_inj a b h = cc

over_limit : (n limit : ℕ) → IsOver (some (pos n)) limit → exceeds (pos n) limit ≡ true
over_limit n limit (m, e, l) = ground (arith, some_pos_inj n m e)

none-IsOver : (limit : ℕ) → ¬ IsOver none limit
none-IsOver limit (m, e, l) = cc

negative-IsOver : (n limit : ℕ) → ¬ IsOver (some (negsuc n)) limit
negative-IsOver n limit (m, e, l) = cc

exceeds-IsOver : (v : ℤ) (limit : ℕ) → (exceeds v limit ≡ true) ↔ IsOver (some v) limit
exceeds-IsOver (pos n) limit = (λ h. (n, refl, ground arith), over_limit n limit)
exceeds-IsOver (negsuc n) limit = (λ h. cc, λ h. absurd (negative-IsOver n limit h))

module _ (parse_ms : Text → Option ℕ) where
  scan-IsOver :
      (events : List RunEvent) (timeout now : ℕ)
      → (scan_timed_out parse_ms events timeout now ≡ true)
        ↔ IsOver (get_elapsed_since_start parse_ms events now) timeout
  unfolding scan_timed_out get_elapsed_since_start
  scan-IsOver [] timeout now = (λ h. cc, λ h. absurd (none-IsOver timeout h))
  scan-IsOver (e ∷ es) timeout now = elim (Bool-cases (is_type e.type worker_started)) [
    | inr other ↦ rw other (scan-IsOver es timeout now)
    | inl started ↦ elim (Option-cases (parse_ms e.ts)) [
      | inl unread ↦ rw (started, unread) (λ h. cc, λ h. absurd (none-IsOver timeout h))
      | inr (start, e') ↦ rw (started, e') (exceeds-IsOver (minus now start) timeout)
    ]
  ]

  -- A run has timed out exactly if the timeout is not 0 and more than it has passed since the
  -- first WORKER_STARTED, as getElapsedSinceStart measures it.
  pub is_run_timed_out_iff :
      (events : List RunEvent) (timeout now : ℕ)
      → (is_run_timed_out parse_ms events timeout now ≡ true)
        ↔ ((1 ≤ timeout) × IsOver (get_elapsed_since_start parse_ms events now) timeout)
  unfolding is_run_timed_out
  is_run_timed_out_iff events zero now = (λ h. cc, λ h. absurd (omega (arith, h.0)))
  is_run_timed_out_iff events (suc t) now = (
    λ h. (omega arith, (scan-IsOver events (suc t) now).0 (ground arith)),
    λ h. ground (arith, (scan-IsOver events (suc t) now).1 h.1),
  )

  last_pulse-append :
      (events : List RunEvent) (e : RunEvent)
      → last_pulse (events ++ e ∷ []) ≡ (if is_pulse e then some e.ts else last_pulse events)
  unfolding last_pulse
  last_pulse-append [] e = refl
  last_pulse-append (f ∷ fs) e = elim (Bool-cases (is_pulse e)) [
    | inl pulse ↦ ground (arith, last_pulse-append fs e)
    | inr other ↦ ground (arith, last_pulse-append fs e)
  ]

  exceeds-minus : (now at limit : ℕ) → now ≤ at + limit → exceeds (minus now at) limit ≡ false
  unfolding minus
  exceeds-minus now at limit h = ground arith

  -- A WORKER_STARTED or WORKER_HEARTBEAT that is appended, whose timestamp is read and lies at most
  -- the threshold back, makes the heartbeat fresh, whatever the events before it are.
  pub is_heartbeat_stale-pulse :
      (events : List RunEvent) (e : RunEvent) (threshold now at : ℕ)
      → is_pulse e ≡ true
      → parse_ms e.ts ≡ some at
      → now ≤ at + threshold
      → (is_heartbeat_stale parse_ms (events ++ e ∷ []) threshold now).stale ≡ false
  unfolding is_heartbeat_stale
  is_heartbeat_stale-pulse events e threshold now at pulse read near =
      elim (Bool-cases (leb threshold 0)) [
        | inl off ↦ rw off refl
        | inr on ↦
            rw (on, last_pulse-append events e, pulse, read) (exceeds-minus now at threshold near)
      ]

  -- An event that is appended and is neither a WORKER_STARTED nor a WORKER_HEARTBEAT does not
  -- change what isHeartbeatStale returns.
  pub is_heartbeat_stale-other :
      (events : List RunEvent) (e : RunEvent) (threshold now : ℕ)
      → is_pulse e ≡ false
      → is_heartbeat_stale parse_ms (events ++ e ∷ []) threshold now
        ≡ is_heartbeat_stale parse_ms events threshold now
  unfolding is_heartbeat_stale
  is_heartbeat_stale-other events e threshold now other =
      rw (last_pulse-append events e, other) refl
