-- ===== src/Executor/Log/Resumed.antt =====
-- executeDag as a whole: the log that it leaves.
use cognitive_runtime.Prelude.{
  ◌≡◌, refl, sym, true, false, Option-cases, inl, inr, Option, none, some, List, [], ◌∷◌, ◌++◌,
  append-nil, append_assoc, All, Text, arith,
}
use mathlib.Core.Path.{subst}
use cognitive_runtime.Prelude.Maps.{has_text}
use cognitive_runtime.Contracts.Dag.{DagSpec}
use cognitive_runtime.Contracts.EventTypes.{RunEventType, is_type, validation_error, node_started}
use cognitive_runtime.Contracts.Events.{EventData, RunEvent}
use cognitive_runtime.Executor.Outcome.{Outcome, ok, thrown, Thrown}
use cognitive_runtime.Executor.Effects.{
  Services, State, and_then, ask, append, append_new, list_by_run_id, pure,
}
use cognitive_runtime.Executor.Emit.{seen_keys}
use cognitive_runtime.Executor.Nodes.{NodeExecContext}
use cognitive_runtime.Executor.Validate.{validate_dag_spec_or_throw}
use cognitive_runtime.Executor.Run.{after_completed, execute_valid, refuse, execute_dag}
use cognitive_runtime.Executor.Traversal.{is_emitted}
use cognitive_runtime.Executor.Log.{stored_event, key, AreFresh, IsOfRun, Adds, execute_fresh-Adds}

-- The log after a call is the log before it and new events: all of the run, none twice.
pub record Extends (dag : DagSpec) (before after : List RunEvent) : Type 0 where
  pub events : List RunEvent
  pub log : after ≡ before ++ events
  pub distinct : AreFresh [] events
  pub of_run : All (IsOfRun dag) events

has_text-append_right :
    (k : Text) (pre seen : List Text) → has_text k (pre ++ seen) ≡ false → has_text k seen ≡ false
unfolding has_text
has_text-append_right k [] seen h = h
has_text-append_right k (p ∷ pre) seen h = ground (arith, has_text-append_right k pre seen)

AreFresh-drop :
    (pre seen : List Text) (es : List RunEvent) → AreFresh (pre ++ seen) es → AreFresh seen es
AreFresh-drop pre seen [] h = tt
AreFresh-drop pre seen (e ∷ es) h = (
  has_text-append_right (key e) pre seen h.0,
  AreFresh-drop pre (seen ++ key e ∷ []) es (rw append_assoc at h.1),
)

module _ {W : Type 0} (services : Services W) (ctx : NodeExecContext) (dag : DagSpec) where
  Extends-none : (log : List RunEvent) → Extends dag log log
  Extends-none log = record { events = []; log = sym (append-nil log); distinct = tt; of_run = tt }

  Adds-Extends : (s t : State W) → Adds dag s t → Extends dag s.log t.log
  Adds-Extends s t a = record {
    events = a.events;
    log = a.log;
    distinct = AreFresh-drop s.seen [] a.events (rw (append-nil s.seen) a.fresh);
    of_run = a.of_run;
  }

  after_completed-Extends :
      (last : Option RunEvent) (events : List RunEvent) (s : State W)
      → Extends dag s.log (after_completed services ctx dag last events s).1.log
  unfolding after_completed and_then
  after_completed-Extends (some e) events s = Extends-none s.log
  after_completed-Extends none events s =
      Adds-Extends _ _
        (execute_fresh-Adds services dag ctx events (record s { seen = seen_keys [] events }))

  execute_valid-Extends : (s : State W) → Extends dag s.log (execute_valid services ctx dag s).1.log
  unfolding execute_valid list_by_run_id and_then
  execute_valid-Extends s = elim (Option-cases (services.list_fails dag.run_id s.world)) [
    | inl listed ↦ rw listed (after_completed-Extends _ _ s)
    | inr (t, failed) ↦ rw failed (Extends-none s.log)
  ]

  append_new-Extends :
      (type : RunEventType) (d : EventData)
      → is_emitted type ≡ true
      → is_type type node_started ≡ false
      → (s : State W)
      → Extends dag s.log (append_new services dag.run_id dag.chat_id type d s).1.log
  unfolding append_new append and_then ask has_text
  append_new-Extends type d emitted other s =
      elim (Option-cases
        (services.rejects (stored_event services dag type d s) (services.iso_now s.world).1)) [
          | inl accepted ↦ rw accepted (record {
            events = stored_event services dag type d s ∷ [];
            log = refl;
            distinct = (refl, tt);
            of_run =
                (record { run_id = refl; chat_id = refl; type = emitted; attempt = λ h. cc }, tt);
          })
          | inr (t, refused) ↦ rw refused (Extends-none s.log)
        ]

  -- Returning a value behind a call changes no state.
  and_then-pure-state :
      {A B : Type 0} (r : Outcome A × State W) (b : B) → (and_then r (λ _. pure b)).1 ≡ r.1
  unfolding and_then
  and_then-pure-state (ok a, t) b = refl
  and_then-pure-state (thrown e, t) b = refl

  refuse-Extends :
      (e : Thrown) (s : State W) → Extends dag s.log (refuse services ctx dag e s).1.log
  unfolding refuse is_type
  refuse-Extends e s =
      subst (λ (t : State W). Extends dag s.log t.log) (sym (and_then-pure-state _ _))
        (append_new-Extends validation_error _ refl refl s)

  -- Whatever the services do and whichever call throws, the log after a run of executeDag is the
  -- log before it followed by new events: each is of the run and of its chat and has one of the
  -- types that the executor emits, no two have the same key, and each NODE_STARTED among them
  -- carries the attempt 1 or 2.
  pub execute_dag-Extends : (s : State W) → Extends dag s.log (execute_dag services ctx dag s).1.log
  unfolding execute_dag
  execute_dag-Extends s =
      go (validate_dag_spec_or_throw services.is_uuid services.is_datetime dag) refl
    where
      go :
          (o : Outcome DagSpec)
          → validate_dag_spec_or_throw services.is_uuid services.is_datetime dag ≡ o
          → Extends dag s.log (execute_dag services ctx dag s).1.log
      go (ok d) e = rw e (execute_valid-Extends s)
      go (thrown t) e = rw e (refuse-Extends t s)
