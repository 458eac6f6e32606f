-- ===== src/DagState/Refines.antt =====
-- deriveDagRunState refines the specification of the status.
use cognitive_runtime.Prelude.{
  ℕ, ◌≡◌, refl, ap, ◌∙◌, Bool, true, false, Bool-cases, inl, inr, if_holds, Option, none, some,
  get_or, is_some, List, [], ◌∷◌, any, Text, text_eq, arith,
}
use cognitive_runtime.Prelude.Maps.{get, set}
use cognitive_runtime.Contracts.Dag.{NodeStatus, NodeKind}
use cognitive_runtime.Contracts.EventTypes.{
  is_type, dag_planned, node_queued, node_started, node_succeeded, node_failed, dag_completed,
}
use cognitive_runtime.Contracts.Events.{RunEvent}
use cognitive_runtime.DagState.{
  dag_created, running, DagDraft, new_dag, note_created, if_waiting, attempt_of, new_or, see_node,
  see_queued, see_attempt, mark_started, see, see_all, final_status, is_running,
}
use cognitive_runtime.DagState.Draft.{
  AttemptDraft, NodeDraft, new_node, with_node, seen_attempt, start_attempt, succeed_attempt,
  fail_attempt,
}
use cognitive_runtime.DagState.Status.{
  completion, starts_node, summary, abstract_status, see_all-status,
}

abbrev runs : NodeDraft → Bool
runs n = is_running n.status

abbrev any_runs : List (Text × NodeDraft) → Bool
any_runs m = any (λ n. runs n.1) m

get-quiet :
    (id : Text) (m : List (Text × NodeDraft))
    → any_runs m ≡ false
    → runs (get_or (get id m) (new_node id)) ≡ false
unfolding get
get-quiet id [] h = refl
get-quiet id ((k, n) ∷ m) h = elim (Bool-cases (text_eq k id)) [
  | inl same ↦ rw same (ground arith)
  | inr other ↦ rw other (get-quiet id m (ground arith))
]

set-quiet :
    (id : Text) (n : NodeDraft) (m : List (Text × NodeDraft))
    → any_runs m ≡ false
    → runs n ≡ false
    → any_runs (set id n m) ≡ false
unfolding set
set-quiet id n [] h q = ground arith
set-quiet id n ((k, o) ∷ m) h q = elim (Bool-cases (text_eq k id)) [
  | inl same ↦ rw same (ground arith)
  | inr other ↦ rw other (ground (arith, set-quiet id n m))
]

with_node-quiet :
    (id : Text) (change : NodeDraft → NodeDraft) (m : List (Text × NodeDraft))
    → any_runs m ≡ false
    → ((n : NodeDraft) → runs n ≡ false → runs (change n) ≡ false)
    → any_runs (with_node id change m) ≡ false
unfolding with_node
with_node-quiet id change m h q = set-quiet id _ m h (q _ (get-quiet id m h))

-- No node runs.
record IsIdle (d : DagDraft) : Type 0 where
  idle : any_runs d.nodes ≡ false

queued-IsIdle :
    (given : Option Text) (kind : Option NodeKind) (d : DagDraft)
    → IsIdle d
    → IsIdle (see_queued given kind d)
unfolding see_queued see_node
queued-IsIdle none kind d h = h
queued-IsIdle (some []) kind d h = h
queued-IsIdle (some (c ∷ id)) kind d h = record {
  idle =
      with_node-quiet (c ∷ id) (λ n. record n { kind = new_or kind n.kind }) d.nodes h.idle
        (λ n q. q);
}

attempted-IsIdle :
    (status : NodeStatus) (change : AttemptDraft → AttemptDraft) (a : Option (Text × ℕ))
    (d : DagDraft)
    → is_running status ≡ false
    → IsIdle d
    → IsIdle (see_attempt status change a d)
unfolding see_attempt see_node seen_attempt
attempted-IsIdle status change none d s h = h
attempted-IsIdle status change (some (id, attempt)) d s h = record {
  idle = with_node-quiet id (seen_attempt status attempt change) d.nodes h.idle (λ n q. s);
}

started-IsIdle :
    (ts : Text) (a : Option (Text × ℕ)) (d : DagDraft)
    → is_some a ≡ false
    → IsIdle d
    → IsIdle (mark_started ts a (see_attempt NodeStatus.running (start_attempt ts) a d))
unfolding see_attempt
started-IsIdle ts none d a h = h
started-IsIdle ts (some x) d a h = cc

-- An event that is neither DAG_PLANNED, NODE_QUEUED nor NODE_STARTED.
see_later-IsIdle :
    (e : RunEvent) (d : DagDraft)
    → is_type e.type dag_planned ≡ false
    → is_type e.type node_queued ≡ false
    → is_type e.type node_started ≡ false
    → IsIdle d
    → IsIdle (see e d)
unfolding see
see_later-IsIdle e d c1 c2 c3 h = elim (Bool-cases (is_type e.type node_succeeded)) [
  | inl done ↦
      rw (c1, c2, c3, done)
        (attempted-IsIdle NodeStatus.succeeded (succeed_attempt e.ts e.payload.output_bytes)
          (attempt_of e) d refl h)
  | inr c4 ↦ elim (Bool-cases (is_type e.type node_failed)) [
    | inl broken ↦
        rw (c1, c2, c3, c4, broken)
          (attempted-IsIdle NodeStatus.failed (fail_attempt e.ts e.payload.error) (attempt_of e) d
            refl h)
    | inr c5 ↦ elim (Bool-cases (is_type e.type dag_completed)) [
      | inl over ↦ rw (c1, c2, c3, c4, c5, over) (record { idle = h.idle })
      | inr c6 ↦ rw (c1, c2, c3, c4, c5, c6) (record { idle = h.idle })
    ]
  ]
]

see-IsIdle : (e : RunEvent) (d : DagDraft) → starts_node e ≡ false → IsIdle d → IsIdle (see e d)
unfolding see starts_node
see-IsIdle e d quiet h = elim (Bool-cases (is_type e.type dag_planned)) [
  | inl plan ↦ rw plan (record { idle = h.idle })
  | inr c1 ↦ elim (Bool-cases (is_type e.type node_queued)) [
    | inl queued ↦ rw (c1, queued) (queued-IsIdle e.payload.node_id e.payload.kind d h)
    | inr c2 ↦ elim (Bool-cases (is_type e.type node_started)) [
      | inl started ↦
          rw (c1, c2, started) (started-IsIdle e.ts (attempt_of e) d (rw started at quiet) h)
      | inr c3 ↦ see_later-IsIdle e d c1 c2 c3 h
    ]
  ]
]

see_all-IsIdle :
    (events : List RunEvent) (d : DagDraft)
    → any starts_node events ≡ false
    → IsIdle d
    → IsIdle (see_all events d)
unfolding see_all
see_all-IsIdle [] d quiet h = h
see_all-IsIdle (e ∷ es) d quiet h =
    see_all-IsIdle es (see e (note_created e d)) (ground arith)
      (see-IsIdle e (note_created e d) (ground arith) (record { idle = h.idle }))

settled_lem :
    (c : Option Bool) (p : Bool)
    → if_waiting (summary c true p dag_created) running ≡ summary c true p dag_created
settled_lem (some true) p = refl
settled_lem (some false) p = refl
settled_lem none p = refl

waiting :
    (events : List RunEvent)
    → any starts_node events ≡ true
    → if_waiting (abstract_status events dag_created) running ≡ abstract_status events dag_created
unfolding abstract_status
waiting events h = rw h (settled_lem (completion events) _)

-- The status that deriveDagRunState gives a DAG, which it keeps in variables and maps, is the one
-- of a specification that only looks at which events there are: SUCCEEDED or FAILED by the last
-- DAG_COMPLETED; without one RUNNING if an attempt at a node has started; without that PLANNED if
-- there is a DAG_PLANNED; else CREATED.
pub final_status-refines :
    (events : List RunEvent)
    → final_status (see_all events new_dag) ≡ abstract_status events dag_created
unfolding final_status
final_status-refines events = elim (Bool-cases (any starts_node events)) [
  | inr quiet ↦
      rw ((see_all-IsIdle events new_dag quiet (record { idle = refl })).idle)
        (see_all-status events new_dag)
  | inl started ↦
      if_holds (λ s. s ≡ abstract_status events dag_created)
        (any_runs (see_all events new_dag).nodes)
        (ap (λ s. if_waiting s running) (see_all-status events new_dag) ∙ waiting events started)
        (see_all-status events new_dag)
]
