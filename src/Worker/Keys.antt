-- ===== src/Worker/Keys.antt =====
-- The keys of appendOnce, and what the handler's first look at the log says of them.
use cognitive_runtime.Prelude.{
  ◌≡◌, refl, ap, ◌∙◌, if◌then◌else◌, Bool, true, false, ◌||◌, Bool-cases, inl, inr, Option, none,
  some, get_or, is_some, List, [], ◌∷◌, text, text_eq, arith,
}
use cognitive_runtime.Prelude.Maps.{has_text}
use cognitive_runtime.Contracts.EventTypes.{
  RunEventType, is_type, run_completed, run_cancelled, worker_started, run_status_changed,
}
use cognitive_runtime.Contracts.Events.{EventData, RunEvent}
use cognitive_runtime.Lifecycle.{has_terminal_event}
use cognitive_runtime.Worker.{key_for_new_event, key_for_run_event, get_run_completed_ok}
use cognitive_runtime.Worker.Job.{seen_of}

-- Only a RUN_COMPLETED has the key of one.
pub completed_key :
    (type : RunEventType) (d : EventData)
    → text_eq (key_for_new_event type d) (text "RUN_COMPLETED") ≡ is_type type run_completed
unfolding key_for_new_event text_eq
completed_key type d = elim (Bool-cases (is_type type run_completed)) [
  | inl completed ↦ rw completed refl
  | inr other ↦ elim (Bool-cases (is_type type run_cancelled)) [
    | inl cancelled ↦ rw (other, cancelled) refl
    | inr other2 ↦ elim (Bool-cases (is_type type worker_started)) [
      | inl started ↦ rw (other, other2, started) refl
      | inr other3 ↦ elim (Bool-cases (is_type type run_status_changed)) [
        | inl changed ↦ rw (other, other2, other3, changed) refl
        | inr other4 ↦ rw (other, other2, other3, other4) refl
      ]
    ]
  ]
]

-- The key of a stored event is the key that it had when it was new.
pub key_for_run_event-new :
    (e : RunEvent) → key_for_run_event e ≡ key_for_new_event e.type e.payload
unfolding key_for_run_event key_for_new_event
key_for_run_event-new e = refl

scan_lem :
    (later : Option Bool) (completed cancelled b : Bool)
    → is_some (
        if is_some later
        then later
        else if completed
        then some b
        else if cancelled
        then some false
        else none)
      ≡ ((completed || cancelled) || is_some later)
scan_lem (some c) true cancelled b = refl
scan_lem (some c) false true b = refl
scan_lem (some c) false false b = refl
scan_lem none true cancelled b = refl
scan_lem none false true b = refl
scan_lem none false false b = refl

-- The scan finds an answer exactly if there is a terminal event.
pub get_run_completed_ok-terminal :
    (events : List RunEvent) → is_some (get_run_completed_ok events) ≡ has_terminal_event events
unfolding get_run_completed_ok has_terminal_event
get_run_completed_ok-terminal [] = refl
get_run_completed_ok-terminal (e ∷ es) =
    scan_lem (get_run_completed_ok es) (is_type e.type run_completed) (is_type e.type run_cancelled)
      (get_or e.payload.ok false)
    ∙ ap (λ b. (is_type e.type run_completed || is_type e.type run_cancelled) || b)
        (get_run_completed_ok-terminal es)

-- Where there is no terminal event, the key of RUN_COMPLETED has not been seen.
pub seen_of-fresh :
    (events : List RunEvent)
    → has_terminal_event events ≡ false
    → has_text (text "RUN_COMPLETED") (seen_of events) ≡ false
unfolding has_terminal_event has_text seen_of
seen_of-fresh [] h = refl
seen_of-fresh (e ∷ es) h = ground (
  arith,
  ap (λ k. text_eq k (text "RUN_COMPLETED")) (key_for_run_event-new e)
      ∙ completed_key e.type e.payload,
  seen_of-fresh es,
)
