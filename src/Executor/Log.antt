-- ===== src/Executor/Log.antt =====
-- What a run of executeDag adds to the event log.
pub mod Resumed
pub mod Redelivered
use cognitive_runtime.Prelude.{
  ℕ, ◌≡◌, refl, sym, ap, ◌∙◌, Bool, true, false, Bool-cases, Option-cases, inl, inr, Option, none,
  some, List, [], ◌∷◌, ◌++◌, map, append-nil, append_assoc, All, All-append, Text, arith,
}
use mathlib.Core.List.{map-append}
use cognitive_runtime.Prelude.Maps.{has_text}
use cognitive_runtime.Contracts.Dag.{DagSpec}
use cognitive_runtime.Contracts.EventTypes.{RunEventType}
use cognitive_runtime.Contracts.Events.{EventData, RunEvent, create_run_event}
use cognitive_runtime.Executor.Outcome.{thrown}
use cognitive_runtime.Executor.Effects.{Services, State, and_then, ask, append, append_new}
use cognitive_runtime.Executor.Emit.{key_of, emit}
use cognitive_runtime.Executor.Nodes.{NodeExecContext}
use cognitive_runtime.Executor.Run.{execute_fresh}
use cognitive_runtime.Executor.Respects.{IsStable, Respects}
use cognitive_runtime.Executor.Traversal.{IsFine, is_emitted, IsRule}
use cognitive_runtime.Executor.Traversal.Loop.{execute_fresh-Respects}

abbrev pub key : RunEvent → Text
key e = key_of e.type e.payload

-- The key of each event differs from those before it and from those already seen.
abbrev pub AreFresh : List Text → List RunEvent → Type 0
AreFresh seen [] = Unit
AreFresh seen (e ∷ es) = (has_text (key e) seen ≡ false) × AreFresh (seen ++ key e ∷ []) es

-- The event belongs to the run, has one of the executor's types, and starts a node only at the
-- attempts 1 and 2.
pub record IsOfRun (dag : DagSpec) (e : RunEvent) : Type 0 where
  pub run_id : e.run_id ≡ dag.run_id
  pub chat_id : e.chat_id ≡ dag.chat_id
  pub type : is_emitted e.type ≡ true
  pub attempt : IsFine e.type e.payload

-- The events that lie between two states of a run: the log only grew, by events of the run whose
-- keys are new, and `seen` grew by their keys.
pub record Adds {W : Type 0} (dag : DagSpec) (s t : State W) : Type 0 where
  pub events : List RunEvent
  pub log : t.log ≡ s.log ++ events
  pub seen : t.seen ≡ s.seen ++ map key events
  pub fresh : AreFresh s.seen events
  pub of_run : All (IsOfRun dag) events

AreFresh-append :
    (seen : List Text) (es fs : List RunEvent)
    → AreFresh seen es
    → AreFresh (seen ++ map key es) fs
    → AreFresh seen (es ++ fs)
AreFresh-append seen [] fs h k = rw append-nil at k
AreFresh-append seen (e ∷ es) fs h k =
    (h.0, AreFresh-append (seen ++ key e ∷ []) es fs h.1 (rw append_assoc k))

module _ {W : Type 0} (dag : DagSpec) where
  Adds-none : (s t : State W) → t.log ≡ s.log → t.seen ≡ s.seen → Adds dag s t
  Adds-none s t l n = record {
    events = [];
    log = l ∙ sym (append-nil s.log);
    seen = n ∙ sym (append-nil s.seen);
    fresh = tt;
    of_run = tt;
  }

  Adds-trans : (s t u : State W) → Adds dag s t → Adds dag t u → Adds dag s u
  Adds-trans s t u a b = record {
    events = a.events ++ b.events;
    log = rw (b.log, a.log) (append_assoc s.log a.events b.events);
    seen =
        rw (b.seen, a.seen, map-append) (append_assoc s.seen (map key a.events) (map key b.events));
    fresh = AreFresh-append s.seen a.events b.events a.fresh (rw a.seen at b.fresh);
    of_run = All-append (IsOfRun dag) a.events b.events a.of_run b.of_run;
  }

  Adds-IsStable : IsStable {W = W} (Adds dag)
  Adds-IsStable = record {
    same = λ s. Adds-none s s refl refl;
    trans = Adds-trans;
    world = λ s w. Adds-none s _ refl refl;
  }

module _ {W : Type 0} (services : Services W) (dag : DagSpec) where
  abbrev pub stored_event : RunEventType → EventData → State W → RunEvent
  stored_event type d s =
      create_run_event (services.iso_now s.world).0 dag.run_id dag.chat_id type d

  emit-Adds :
      (type : RunEventType) (d : EventData)
      → is_emitted type ≡ true
      → IsFine type d
      → (s : State W) → Adds dag s (emit services dag type d s).1
  unfolding emit append_new append and_then ask
  emit-Adds type d emitted fine s = elim (Bool-cases (has_text (key_of type d) s.seen)) [
    | inl old ↦ rw old (Adds-none dag s s refl refl)
    | inr new ↦
        elim (Option-cases
          (services.rejects (stored_event type d s) (services.iso_now s.world).1)) [
            | inl accepted ↦
                rw (new, accepted)
                  (record {
                    events = stored_event type d s ∷ [];
                    log = refl;
                    seen = refl;
                    fresh = (new, tt);
                    of_run = (
                      record { run_id = refl; chat_id = refl; type = emitted; attempt = fine },
                      tt,
                    );
                  })
            | inr (t, refused) ↦ rw (new, refused) (Adds-none dag s _ refl refl)
          ]
  ]

  Adds-IsRule : IsRule services dag (Adds dag)
  Adds-IsRule = record {
    stable = Adds-IsStable dag;
    emits = λ type d emitted fine. record { after = emit-Adds type d emitted fine };
  }

  -- A run of a DAG that has not completed appends events of the run whose keys it had not seen, no
  -- two with the same key, and marks exactly these keys as seen.
  pub execute_fresh-Adds :
      (ctx : NodeExecContext) (events : List RunEvent) (s : State W)
      → Adds dag s (execute_fresh services ctx dag events s).1
  execute_fresh-Adds ctx events s =
      (execute_fresh-Respects services ctx dag (Adds dag) Adds-IsRule events).after s
