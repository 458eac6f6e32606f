-- ===== src/DagState/Status.antt =====
-- The status of a DAG, as a specification without state says it.
use cognitive_runtime.Prelude.{
  ℕ, ◌≡◌, refl, ◌∙◌, Bool, true, false, ◌&&◌, ◌||◌, Bool-cases, inl, inr, if◌then◌else◌, Option,
  none, some, get_or, is_some, List, [], ◌∷◌, any, Text, arith,
}
use cognitive_runtime.Contracts.Dag.{NodeStatus, NodeKind}
use cognitive_runtime.Contracts.EventTypes.{
  is_type, dag_planned, node_queued, node_started, node_succeeded, node_failed, dag_completed,
}
use cognitive_runtime.Contracts.Events.{RunEvent}
use cognitive_runtime.DagState.{
  DagStatus, dag_created, planned, running, succeeded, failed, DagDraft, note_created, if_created,
  if_waiting, attempt_of, see_node, see_queued, see_attempt, mark_started, see, see_all,
}
use cognitive_runtime.DagState.Draft.{AttemptDraft, start_attempt}

-- What the last DAG_COMPLETED says.
unfoldable pub completion : List RunEvent → Option Bool
unfolding is_type
completion [] = none
completion (e ∷ es) =
    let later = completion es in
    if is_some later
    then later
    else if is_type e.type dag_completed
    then some (get_or e.payload.ok false)
    else none

-- A NODE_STARTED with a node and an attempt.
unfoldable pub starts_node : RunEvent → Bool
unfolding is_type
starts_node e = is_type e.type node_started && is_some (attempt_of e)

abbrev pub summary : Option Bool → Bool → Bool → DagStatus → DagStatus
summary (some true) started has_plan old = succeeded
summary (some false) started has_plan old = failed
summary none true has_plan old = if_waiting old running
summary none false true old = if_created old planned
summary none false false old = old

-- The last DAG_COMPLETED decides; without one the DAG runs if a node was started, and else is
-- planned if there is a DAG_PLANNED.
unfoldable pub abstract_status : List RunEvent → DagStatus → DagStatus
unfolding completion starts_node is_type
abstract_status events old =
    summary (completion events) (any starts_node events)
      (any (λ e. is_type e.type dag_planned) events) old

planned_lem :
    (c : Option Bool) (s p : Bool) (old : DagStatus)
    → summary c s p (if_created old planned) ≡ summary c s true old
planned_lem (some true) s p old = refl
planned_lem (some false) s p old = refl
planned_lem none true p dag_created = refl
planned_lem none true p planned = refl
planned_lem none true p running = refl
planned_lem none true p succeeded = refl
planned_lem none true p failed = refl
planned_lem none false true dag_created = refl
planned_lem none false true planned = refl
planned_lem none false true running = refl
planned_lem none false true succeeded = refl
planned_lem none false true failed = refl
planned_lem none false false old = refl

started_lem :
    (c : Option Bool) (s p : Bool) (old : DagStatus)
    → summary c s p (if_waiting old running) ≡ summary c true p old
started_lem (some true) s p old = refl
started_lem (some false) s p old = refl
started_lem none true p dag_created = refl
started_lem none true p planned = refl
started_lem none true p running = refl
started_lem none true p succeeded = refl
started_lem none true p failed = refl
started_lem none false true dag_created = refl
started_lem none false true planned = refl
started_lem none false true running = refl
started_lem none false true succeeded = refl
started_lem none false true failed = refl
started_lem none false false old = refl

completed_lem :
    (c : Option Bool) (s p b : Bool) (old : DagStatus)
    → summary c s p (if b then succeeded else failed)
      ≡ summary (if is_some c then c else some b) s p old
completed_lem (some true) s p b old = refl
completed_lem (some false) s p b old = refl
completed_lem none true p true old = refl
completed_lem none true p false old = refl
completed_lem none false true true old = refl
completed_lem none false true false old = refl
completed_lem none false false true old = refl
completed_lem none false false false old = refl

keep_lem : (c : Option Bool) → (if is_some c then c else none) ≡ c
keep_lem none = refl
keep_lem (some b) = refl

see_queued-status :
    (given : Option Text) (kind : Option NodeKind) (d : DagDraft)
    → (see_queued given kind d).status ≡ d.status
unfolding see_queued see_node
see_queued-status none kind d = refl
see_queued-status (some []) kind d = refl
see_queued-status (some (c ∷ id)) kind d = refl

see_attempt-status :
    (status : NodeStatus) (change : AttemptDraft → AttemptDraft) (a : Option (Text × ℕ))
    (d : DagDraft)
    → (see_attempt status change a d).status ≡ d.status
unfolding see_attempt see_node
see_attempt-status status change none d = refl
see_attempt-status status change (some (id, attempt)) d = refl

started_status :
    (ts : Text) (a : Option (Text × ℕ)) (c : Option Bool) (s p : Bool) (d : DagDraft)
    → summary c s p
        (mark_started ts a (see_attempt NodeStatus.running (start_attempt ts) a d)).status
      ≡ summary c (is_some a || s) p d.status
unfolding see_attempt see_node
started_status ts none c s p d = refl
started_status ts (some (id, attempt)) c s p d = started_lem c s p d.status

-- One event that is neither DAG_PLANNED, NODE_QUEUED nor NODE_STARTED.
see_later :
    (e : RunEvent) (es : List RunEvent) (d : DagDraft)
    → is_type e.type dag_planned ≡ false
    → is_type e.type node_queued ≡ false
    → is_type e.type node_started ≡ false
    → abstract_status es (see e d).status ≡ abstract_status (e ∷ es) d.status
unfolding abstract_status completion starts_node see
see_later e es d c1 c2 c3 = elim (Bool-cases (is_type e.type node_succeeded)) [
  | inl done ↦
      rw (c1, c2, c3, done, other_succeeded done, see_attempt-status, keep_lem (completion es)) refl
  | inr c4 ↦ elim (Bool-cases (is_type e.type node_failed)) [
    | inl broken ↦
        rw
          (
            c1,
            c2,
            c3,
            c4,
            broken,
            other_failed broken,
            see_attempt-status,
            keep_lem (completion es),
          )
          refl
    | inr c5 ↦ elim (Bool-cases (is_type e.type dag_completed)) [
      | inl over ↦ rw (c1, c2, c3, c4, c5, over) (completed_lem (completion es) _ _ _ d.status)
      | inr c6 ↦ rw (c1, c2, c3, c4, c5, c6, keep_lem (completion es)) refl
    ]
  ]
]
  where
    other_succeeded : is_type e.type node_succeeded ≡ true → is_type e.type dag_completed ≡ false
    other_succeeded h = ground arith

    other_failed : is_type e.type node_failed ≡ true → is_type e.type dag_completed ≡ false
    other_failed h = ground arith

-- One event.
abstract_status-see :
    (e : RunEvent) (es : List RunEvent) (d : DagDraft)
    → abstract_status es (see e d).status ≡ abstract_status (e ∷ es) d.status
unfolding abstract_status completion starts_node see
abstract_status-see e es d = elim (Bool-cases (is_type e.type dag_planned)) [
  | inl plan ↦
      rw (plan, other_completed plan, other_started plan, keep_lem (completion es))
        (planned_lem (completion es) _ _ d.status)
  | inr c1 ↦ elim (Bool-cases (is_type e.type node_queued)) [
    | inl queued ↦
        rw
          (
            c1,
            queued,
            queued_completed queued,
            queued_started queued,
            see_queued-status,
            keep_lem (completion es),
          )
          refl
    | inr c2 ↦ elim (Bool-cases (is_type e.type node_started)) [
      | inl started ↦
          rw (c1, c2, started, started_completed started, keep_lem (completion es))
            (started_status e.ts (attempt_of e) (completion es) _ _ d)
      | inr c3 ↦ see_later e es d c1 c2 c3
    ]
  ]
]
  where
    other_completed : is_type e.type dag_planned ≡ true → is_type e.type dag_completed ≡ false
    other_completed h = ground arith

    other_started : is_type e.type dag_planned ≡ true → is_type e.type node_started ≡ false
    other_started h = ground arith

    queued_completed : is_type e.type node_queued ≡ true → is_type e.type dag_completed ≡ false
    queued_completed h = ground arith

    queued_started : is_type e.type node_queued ≡ true → is_type e.type node_started ≡ false
    queued_started h = ground arith

    started_completed : is_type e.type node_started ≡ true → is_type e.type dag_completed ≡ false
    started_completed h = ground arith

pub see_all-status :
    (events : List RunEvent) (d : DagDraft)
    → (see_all events d).status ≡ abstract_status events d.status
unfolding see_all abstract_status completion starts_node
see_all-status [] d = refl
see_all-status (e ∷ es) d =
    see_all-status es (see e (note_created e d)) ∙ abstract_status-see e es (note_created e d)
