-- ===== src/DagState/Nodes.antt =====
-- The attempts and the status of a node, independently of the maps.
use cognitive_runtime.Prelude.{
  ℕ, max, ◌≡◌, refl, sym, ap, ◌∙◌, Bool, true, false, Bool-cases, ◌⊎◌, inl, inr, if◌then◌else◌,
  if_holds, Option, none, some, get_or, List, [], ◌∷◌, Text, text_eq, text_eq_iff, arith,
}
use cognitive_runtime.Prelude.Maps.{get, get-set}
use cognitive_runtime.Contracts.Dag.{NodeKind, NodeStatus}
use cognitive_runtime.Contracts.EventTypes.{
  is_type, dag_planned, node_queued, node_started, node_succeeded, node_failed, dag_completed,
}
use cognitive_runtime.Contracts.Events.{RunEvent}
use cognitive_runtime.DagState.{
  DagDraft, new_dag, note_created, see_node, see_queued, see_attempt, mark_started, attempt_of, see,
  see_all, new_or, node_state, found_node, final_node_status, skip_pending, DagNodeState,
}
use cognitive_runtime.DagState.Draft.{
  AttemptDraft, NodeDraft, new_node, with_node, seen_attempt, start_attempt, succeed_attempt,
  fail_attempt,
}

-- The status that an event reports of the attempt of a node.
unfoldable pub reported : RunEvent → Option NodeStatus
unfolding is_type
reported e =
    if is_type e.type node_started
    then some NodeStatus.running
    else if is_type e.type node_succeeded
    then some NodeStatus.succeeded
    else if is_type e.type node_failed
    then some NodeStatus.failed
    else none

abbrev of_node : Text → Option (Text × ℕ) → Option NodeStatus → Option (ℕ × NodeStatus)
unfolding text_eq
of_node id (some (j, attempt)) (some status) = if text_eq j id then some (attempt, status) else none
of_node id _ _ = none

-- The attempt and the status that an event reports of the node.
unfoldable pub report_of : Text → RunEvent → Option (ℕ × NodeStatus)
unfolding of_node attempt_of reported
report_of id e = of_node id (attempt_of e) (reported e)

abbrev attempt_in : Option (ℕ × NodeStatus) → ℕ
attempt_in none = 0
attempt_in (some (attempt, status)) = attempt

abbrev status_in : Option (ℕ × NodeStatus) → NodeStatus → NodeStatus
status_in none status = status
status_in (some (attempt, new)) status = new

-- The highest attempt that the events report of the node, and 0 without one.
unfoldable pub highest_reported : Text → List RunEvent → ℕ
unfolding report_of
highest_reported id [] = 0
highest_reported id (e ∷ es) = max (attempt_in (report_of id e)) (highest_reported id es)

-- The status that the last of the events that report one says, and the given one without any.
unfoldable pub last_reported : Text → NodeStatus → List RunEvent → NodeStatus
unfolding report_of
last_reported id status [] = status
last_reported id status (e ∷ es) = last_reported id (status_in (report_of id e) status) es

abbrev node_of : Text → DagDraft → NodeDraft
unfolding get
node_of id d = get_or (get id d.nodes) (new_node id)

-- What a node shows.
pub record IsAt (attempt : ℕ) (status : NodeStatus) (n : NodeDraft) : Type 0 where
  pub attempt_is : n.last_attempt ≡ attempt
  pub status_is : n.status ≡ status

node_of-see_node :
    (id j : Text) (change : NodeDraft → NodeDraft) (d : DagDraft)
    → node_of id (see_node j change d)
      ≡ (if text_eq j id then change (node_of id d) else node_of id d)
unfolding with_node see_node text_eq
node_of-see_node id j change d = elim (Bool-cases (text_eq j id)) [
  | inl same ↦ rw (get-set j id, same, (text_eq_iff j id).0 same) refl
  | inr other ↦ rw (get-set j id, other) refl
]

unchanged :
    (id : Text) (d : DagDraft)
    → IsAt (node_of id d).last_attempt (node_of id d).status (node_of id d)
unchanged id d = record { attempt_is = refl; status_is = refl }

queued-IsAt :
    (id : Text) (given : Option Text) (kind : Option NodeKind) (d : DagDraft)
    → IsAt (node_of id d).last_attempt (node_of id d).status (node_of id (see_queued given kind d))
unfolding see_queued
queued-IsAt id none kind d = unchanged id d
queued-IsAt id (some []) kind d = unchanged id d
queued-IsAt id (some (c ∷ j)) kind d =
    rw (node_of-see_node id (c ∷ j) (λ n. record n { kind = new_or kind n.kind }) d) (
      if_holds (IsAt (node_of id d).last_attempt (node_of id d).status) (text_eq (c ∷ j) id)
        (record { attempt_is = refl; status_is = refl }) (unchanged id d))

attempted-IsAt :
    (id : Text) (status : NodeStatus) (change : AttemptDraft → AttemptDraft) (a : Option (Text × ℕ))
    (d : DagDraft)
    → IsAt
        (max (node_of id d).last_attempt (attempt_in (of_node id a (some status))))
        (status_in (of_node id a (some status)) (node_of id d).status)
        (node_of id (see_attempt status change a d))
unfolding see_attempt of_node seen_attempt
attempted-IsAt id status change none d = record { attempt_is = omega arith; status_is = refl }
attempted-IsAt id status change (some (j, attempt)) d =
    rw (node_of-see_node id j (seen_attempt status attempt change) d)
      (elim (Bool-cases (text_eq j id)) [
        | inl same ↦ rw same (record { attempt_is = refl; status_is = refl })
        | inr other ↦ rw other (record { attempt_is = omega arith; status_is = refl })
      ])

of_node-none : (id : Text) (a : Option (Text × ℕ)) → of_node id a none ≡ none
unfolding of_node
of_node-none id none = refl
of_node-none id (some (j, attempt)) = refl

quiet_planned : (e : RunEvent) → is_type e.type dag_planned ≡ true → reported e ≡ none
unfolding reported is_type
quiet_planned e h = ground arith

quiet_queued : (e : RunEvent) → is_type e.type node_queued ≡ true → reported e ≡ none
unfolding reported is_type
quiet_queued e h = ground arith

abbrev Shows : Text → RunEvent → DagDraft → NodeDraft → Type 0
unfolding report_of
Shows id e d n =
    IsAt (max (node_of id d).last_attempt (attempt_in (report_of id e)))
      (status_in (report_of id e) (node_of id d).status) n

quiet_lem :
    (id : Text) (e : RunEvent) (n : NodeDraft) (d : DagDraft)
    → reported e ≡ none
    → IsAt (node_of id d).last_attempt (node_of id d).status n
    → Shows id e d n
unfolding Shows report_of
quiet_lem id e n d quiet at =
    rw (quiet, of_node-none id (attempt_of e))
      (record { attempt_is = at.attempt_is ∙ omega arith; status_is = at.status_is })

attempted_lem :
    (id : Text) (e : RunEvent) (status : NodeStatus) (change : AttemptDraft → AttemptDraft)
    (d : DagDraft)
    → reported e ≡ some status
    → Shows id e d (node_of id (see_attempt status change (attempt_of e) d))
unfolding Shows report_of
attempted_lem id e status change d r = rw r (attempted-IsAt id status change (attempt_of e) d)

node_of-mark_started :
    (id ts : Text) (a : Option (Text × ℕ)) (d : DagDraft)
    → node_of id (mark_started ts a d) ≡ node_of id d
unfolding node_of
node_of-mark_started id ts none d = refl
node_of-mark_started id ts (some a) d = refl

reported_started :
    (e : RunEvent) → is_type e.type node_started ≡ true → reported e ≡ some NodeStatus.running
unfolding reported
reported_started e h = rw h refl

reported_succeeded :
    (e : RunEvent)
    → is_type e.type node_started ≡ false
    → is_type e.type node_succeeded ≡ true
    → reported e ≡ some NodeStatus.succeeded
unfolding reported
reported_succeeded e h k = rw (h, k) refl

reported_failed :
    (e : RunEvent)
    → is_type e.type node_started ≡ false
    → is_type e.type node_succeeded ≡ false
    → is_type e.type node_failed ≡ true
    → reported e ≡ some NodeStatus.failed
unfolding reported
reported_failed e h k l = rw (h, k, l) refl

reported-none :
    (e : RunEvent)
    → is_type e.type node_started ≡ false
    → is_type e.type node_succeeded ≡ false
    → is_type e.type node_failed ≡ false
    → reported e ≡ none
unfolding reported
reported-none e h k l = rw (h, k, l) refl

-- One event that is neither DAG_PLANNED nor NODE_QUEUED.
see_later-shown :
    (id : Text) (e : RunEvent) (d : DagDraft)
    → is_type e.type dag_planned ≡ false
    → is_type e.type node_queued ≡ false
    → Shows id e d (node_of id (see e d))
unfolding see
see_later-shown id e d c1 c2 = elim (Bool-cases (is_type e.type node_started)) [
  | inl started ↦
      rw (c1, c2, started, node_of-mark_started id e.ts (attempt_of e))
        (attempted_lem id e NodeStatus.running (start_attempt e.ts) d (reported_started e started))
  | inr c3 ↦ elim (Bool-cases (is_type e.type node_succeeded)) [
    | inl done ↦
        rw (c1, c2, c3, done)
          (attempted_lem id e NodeStatus.succeeded (succeed_attempt e.ts e.payload.output_bytes) d
            (reported_succeeded e c3 done))
    | inr c4 ↦ elim (Bool-cases (is_type e.type node_failed)) [
      | inl broken ↦
          rw (c1, c2, c3, c4, broken)
            (attempted_lem id e NodeStatus.failed (fail_attempt e.ts e.payload.error) d
              (reported_failed e c3 c4 broken))
      | inr c5 ↦
          rw (c1, c2, c3, c4, c5)
            (quiet_lem id e _ d (reported-none e c3 c4 c5) (
              if_holds
                (λ (d2 : DagDraft).
                  IsAt (node_of id d).last_attempt (node_of id d).status (node_of id d2))
                (is_type e.type dag_completed) (unchanged id d) (unchanged id d)))
    ]
  ]
]

-- One event.
see-shown : (id : Text) (e : RunEvent) (d : DagDraft) → Shows id e d (node_of id (see e d))
unfolding see
see-shown id e d = elim (Bool-cases (is_type e.type dag_planned)) [
  | inl planned ↦ rw planned (quiet_lem id e _ d (quiet_planned e planned) (unchanged id d))
  | inr c1 ↦ elim (Bool-cases (is_type e.type node_queued)) [
    | inl queued ↦
        rw (c1, queued)
          (quiet_lem id e _ d (quiet_queued e queued)
            (queued-IsAt id e.payload.node_id e.payload.kind d))
    | inr c2 ↦ see_later-shown id e d c1 c2
  ]
]

see_all-IsAt :
    (id : Text) (events : List RunEvent) (d : DagDraft)
    → IsAt
        (max (node_of id d).last_attempt (highest_reported id events))
        (last_reported id (node_of id d).status events)
        (node_of id (see_all events d))
unfolding see_all highest_reported last_reported Shows node_of note_created
see_all-IsAt id [] d = record { attempt_is = omega arith; status_is = refl }
see_all-IsAt id (e ∷ es) d =
    let later = see_all-IsAt id es (see e (note_created e d)) in
    let now = see-shown id e (note_created e d) in
    record {
      attempt_is = later.attempt_is ∙ omega (arith, now.attempt_is);
      status_is = later.status_is ∙ ap (λ s. last_reported id s es) now.status_is;
    }

skip_pending-cases :
    (s : NodeStatus)
    → (skip_pending s ≡ s) ⊎ ((s ≡ NodeStatus.pending) × (skip_pending s ≡ NodeStatus.skipped))
skip_pending-cases NodeStatus.pending = inr (refl, refl)
skip_pending-cases NodeStatus.running = inl refl
skip_pending-cases NodeStatus.succeeded = inl refl
skip_pending-cases NodeStatus.failed = inl refl
skip_pending-cases NodeStatus.skipped = inl refl

-- The status is the one that was reported, or the node was left out of a DAG that succeeded.
abbrev pub IsShown : Bool → NodeStatus → NodeStatus → Type 0
IsShown all_ok last status =
    (status ≡ last)
    ⊎ ((all_ok ≡ true) × (last ≡ NodeStatus.pending) × (status ≡ NodeStatus.skipped))

pub record IsDerived (id : Text) (events : List RunEvent) (all_ok : Bool) (n : DagNodeState)
    : Type 0 where
  pub attempt_derived : n.last_attempt ≡ highest_reported id events
  pub status_derived : IsShown all_ok (last_reported id NodeStatus.pending events) n.status

-- The two facts on a draft are those on the state that is derived from it.
found-IsDerived :
    (locale_lt : Text → Text → Bool) (is_uuid is_datetime : Text → Bool) (id : Text)
    (events : List RunEvent) (all_ok : Bool) (given : Option NodeDraft)
    → get id (see_all events new_dag).nodes ≡ given
    → IsDerived id events all_ok
        (node_state locale_lt is_uuid is_datetime all_ok (see_all events new_dag) id)
unfolding node_state found_node final_node_status node_of
found-IsDerived locale_lt is_uuid is_datetime id events all_ok none unseen =
    let at = rw unseen at (see_all-IsAt id events new_dag) in
    rw unseen
      (record { attempt_derived = at.attempt_is ∙ omega arith; status_derived = inl at.status_is })
found-IsDerived locale_lt is_uuid is_datetime id events false (some n) seen =
    let at = rw seen at (see_all-IsAt id events new_dag) in
    rw seen
      (record { attempt_derived = at.attempt_is ∙ omega arith; status_derived = inl at.status_is })
found-IsDerived locale_lt is_uuid is_datetime id events true (some n) seen =
    let at = rw seen at (see_all-IsAt id events new_dag) in
    rw seen (record {
      attempt_derived = at.attempt_is ∙ omega arith;
      status_derived = elim (skip_pending-cases n.status) [
        | inl kept ↦ inl (kept ∙ at.status_is)
        | inr (pending, skipped) ↦ inr (refl, sym at.status_is ∙ pending, skipped)
      ];
    })

module _ (locale_lt : Text → Text → Bool) (is_uuid is_datetime : Text → Bool) where
  -- Over any events, the state that is derived for a node has as its last attempt the highest one
  -- that an event reports of the node, and 0 without one; its status is that of the last such
  -- event, and PENDING without one, or SKIPPED in place of PENDING where the DAG has succeeded.
  pub node_state-IsDerived :
      (id : Text) (events : List RunEvent) (all_ok : Bool)
      → IsDerived id events all_ok
          (node_state locale_lt is_uuid is_datetime all_ok (see_all events new_dag) id)
  node_state-IsDerived id events all_ok =
      found-IsDerived locale_lt is_uuid is_datetime id events all_ok
        (get id (see_all events new_dag).nodes) refl
