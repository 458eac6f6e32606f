-- ===== src/Runs/Status.antt =====
-- How the status of a run moves.
use cognitive_runtime.Prelude.{
  ◌≡◌, refl, ap, ◌∙◌, true, false, Bool-cases, inl, inr, some, List, [], ◌∷◌, ◌++◌, any,
}
use cognitive_runtime.Contracts.Dag.{RunStatus}
use cognitive_runtime.Contracts.EventTypes.{is_type, run_status_changed}
use cognitive_runtime.Contracts.Events.{RunEvent}
use cognitive_runtime.Runs.{is_run_status, is_created, track, derive_run_status_from_events}

pub track-append :
    (es fs : List RunEvent) (status : RunStatus)
    → track (es ++ fs) status ≡ track fs (track es status)
unfolding track
track-append [] fs status = refl
track-append (e ∷ es) fs status = track-append es fs _

-- Events that do not move the status.
pub track-quiet :
    (es : List RunEvent) (status : RunStatus)
    → any (λ f. is_type f.type run_status_changed) es ≡ false
    → track es status ≡ status
unfolding track
track-quiet [] status quiet = refl
track-quiet (e ∷ es) status quiet = elim (Bool-cases (is_type e.type run_status_changed)) [
  | inl changed ↦ absurd (true_false (rw changed at quiet))
  | inr other ↦ rw other (track-quiet es status (rw other at quiet))
]
  where
    true_false : true ≡ false → ⊥
    true_false e = cc

-- A status that has moved is the derived one.
pub derive-moved :
    (es : List RunEvent)
    → is_created (track es RunStatus.created) ≡ false
    → derive_run_status_from_events es ≡ track es RunStatus.created
unfolding derive_run_status_from_events
derive-moved es moved = rw moved refl

-- Behind a change to a status but CREATED and CANCELLED, and any events that change no status,
-- the derived status is that of the change, whatever the events before it are.
pub derive-changed :
    (es : List RunEvent) (e : RunEvent) (to : RunStatus) (others : List RunEvent)
    → is_type e.type run_status_changed ≡ true
    → e.payload.to_status ≡ some to
    → is_run_status to ≡ true
    → is_created to ≡ false
    → any (λ f. is_type f.type run_status_changed) others ≡ false
    → derive_run_status_from_events (es ++ e ∷ others) ≡ to
unfolding track
derive-changed es e to others changed target known moved quiet =
    derive-moved (es ++ e ∷ others) (ap is_created last ∙ moved) ∙ last
  where
    last : track (es ++ e ∷ others) RunStatus.created ≡ to
    last =
        track-append es (e ∷ others) RunStatus.created
        ∙ rw (changed, target, known) (track-quiet others to quiet)
