-- ===== src/Lifecycle.antt =====
-- The helpers of packages/runtime/src/lifecycle.ts: the configuration, cancellation, timeouts
-- and stale heartbeats; the children hold the classification of failed runs and the active node. The clock `now` is an
-- argument, in milliseconds since 1970, as is a timestamp that `parse_ms` can read.
pub mod Clock
pub mod Classify
pub mod Failures
pub mod Active
use Prim.Native.Nat.{zero, suc}
use cognitive_runtime.Prelude.{
  ℕ, ◌+◌, ◌-◌, ltb, leb, min, max, Bool, true, false, not, ◌&&◌, ◌||◌, if◌then◌else◌, Option, none,
  some, get_or, List, [], ◌∷◌, ◌++◌, any, find, map, Text, text, text_eq, decimal, is_some, ℤ, pos,
  negsuc,
}
use cognitive_runtime.Prelude.Maps.{get, set, has_text, add_text}
use cognitive_runtime.Contracts.EventTypes.{
  is_type, run_cancel_requested, run_cancelled, run_completed, run_stale_detected,
  run_timeout_reached, policy_evaluated, validation_error, node_failed, node_started,
  node_succeeded, runtime_error, worker_started, worker_heartbeat,
}
use cognitive_runtime.Contracts.Events.{
  RunEvent, FailedRunClass, transient, permanent, dead_letter, cancelled, stale, PolicyVerdict,
  blocked,
}

pub record Phase7Config : Type 0 where
  pub enable_code_change_workflow : Bool
  pub enable_replanning : Bool
  pub enable_policy_gate : Bool
  pub enable_run_cancellation : Bool
  pub max_planner_loops : ℕ
  pub run_timeout_ms : ℕ
  pub stale_heartbeat_ms : ℕ

-- `value === name`, where a missing value is `undefined`.
abbrev is_value : Option Text → Text → Bool
is_value none t = false
is_value (some v) t = text_eq v t

-- `value || fallback`, where the empty string is falsy.
abbrev pub or_text : Option Text → Text → Text
or_text (some (a ∷ s)) fallback = a ∷ s
or_text _ fallback = fallback

-- `parsed || fallback`, where NaN, which is `none`, and 0 are falsy.
abbrev pub or_num : Option ℤ → ℕ → ℤ
or_num (some (pos (suc n))) fallback = pos (suc n)
or_num (some (negsuc n)) fallback = negsuc n
or_num _ fallback = pos fallback

-- `Math.max(low, v)` for a natural number `low`.
abbrev pub at_least : ℕ → ℤ → ℕ
at_least low (pos n) = max low n
at_least low (negsuc n) = low

-- `parse_int` is `parseInt(s, 10)`.
module _ (parse_int : Text → Option ℤ) (env : Text → Option Text) where
  abbrev pub number_of : Text → Text → ℕ → ℤ
  number_of name shown fallback = or_num (parse_int (or_text (env name) shown)) fallback

  unfoldable pub create_phase7_config : Phase7Config
  create_phase7_config = record {
    enable_code_change_workflow = is_value (env (text "ENABLE_CODE_CHANGE_WORKFLOW")) (text "true");
    enable_replanning = is_value (env (text "ENABLE_REPLANNING")) (text "true");
    enable_policy_gate = is_value (env (text "ENABLE_POLICY_GATE")) (text "true");
    enable_run_cancellation = not (is_value (env (text "ENABLE_RUN_CANCELLATION")) (text "false"));
    max_planner_loops = min 10 (at_least 1 (number_of (text "MAX_PLANNER_LOOPS") (text "3") 3));
    run_timeout_ms = at_least 0 (number_of (text "RUN_TIMEOUT_MS") (text "300000") 300000);
    stale_heartbeat_ms = at_least 0 (number_of (text "STALE_HEARTBEAT_MS") (text "60000") 60000);
  }

unfoldable pub is_run_cancelled : List RunEvent → Bool
unfolding is_type
is_run_cancelled events = any (λ e. is_type e.type run_cancel_requested) events

unfoldable pub has_terminal_event : List RunEvent → Bool
unfolding is_type
has_terminal_event events =
    any (λ e. is_type e.type run_completed || is_type e.type run_cancelled) events

-- `now - startMs`
unfoldable pub minus : ℕ → ℕ → ℤ
minus now start = if leb start now then pos (now - start) else negsuc (start - now - 1)

-- `elapsed > limit`
abbrev pub exceeds : ℤ → ℕ → Bool
exceeds (pos n) limit = ltb limit n
exceeds (negsuc n) limit = false

-- `parse_ms ts` is `new Date(ts).getTime()`, and `none` where that is not finite.
module _ (parse_ms : Text → Option ℕ) where
  abbrev late : Option ℕ → ℕ → ℕ → Bool
  unfolding minus
  late none timeout now = false
  late (some start) timeout now = exceeds (minus now start) timeout

  unfoldable pub scan_timed_out : List RunEvent → ℕ → ℕ → Bool
  unfolding is_type minus
  scan_timed_out [] timeout now = false
  scan_timed_out (e ∷ es) timeout now =
      let rest = scan_timed_out es timeout now in
      if is_type e.type worker_started then late (parse_ms e.ts) timeout now else rest

  unfoldable pub is_run_timed_out : List RunEvent → ℕ → ℕ → Bool
  unfolding scan_timed_out
  is_run_timed_out events timeout now =
      if leb timeout 0 then false else scan_timed_out events timeout now

  abbrev elapsed_from : Option ℕ → ℕ → Option ℤ
  unfolding minus
  elapsed_from none now = none
  elapsed_from (some start) now = some (minus now start)

  unfoldable pub get_elapsed_since_start : List RunEvent → ℕ → Option ℤ
  unfolding is_type minus
  get_elapsed_since_start [] now = none
  get_elapsed_since_start (e ∷ es) now =
      let rest = get_elapsed_since_start es now in
      if is_type e.type worker_started then elapsed_from (parse_ms e.ts) now else rest

pub record Staleness : Type 0 where
  pub stale : Bool
  pub last_heartbeat_ts : Option Text
  pub elapsed_since_hb_ms : Option ℤ

unfoldable pub is_pulse : RunEvent → Bool
unfolding is_type
is_pulse e = is_type e.type worker_heartbeat || is_type e.type worker_started

-- The scan from the end: the last pulse of the later events, else this one.
unfoldable pub last_pulse : List RunEvent → Option Text
unfolding is_pulse
last_pulse [] = none
last_pulse (e ∷ es) =
    let later = last_pulse es in
    if is_some later then later else if is_pulse e then some e.ts else none

module _ (parse_ms : Text → Option ℕ) where
  abbrev measured : Text → Option ℕ → ℕ → ℕ → Staleness
  unfolding minus
  measured ts none threshold now = record {
    stale = false;
    last_heartbeat_ts = some ts;
    elapsed_since_hb_ms = none;
  }
  measured ts (some at) threshold now = record {
    stale = exceeds (minus now at) threshold;
    last_heartbeat_ts = some ts;
    elapsed_since_hb_ms = some (minus now at);
  }

  abbrev not_stale : Staleness
  not_stale = record { stale = false; last_heartbeat_ts = none; elapsed_since_hb_ms = none }

  abbrev pub since : Option Text → ℕ → ℕ → Staleness
  unfolding minus
  since none threshold now = not_stale
  since (some ts) threshold now = measured ts (parse_ms ts) threshold now

  unfoldable pub is_heartbeat_stale : List RunEvent → ℕ → ℕ → Staleness
  unfolding last_pulse minus
  is_heartbeat_stale events threshold now =
      if leb threshold 0 then not_stale else since (last_pulse events) threshold now
