-- ===== src/DagState.antt =====
-- deriveDagRunState (packages/runtime/src/derive-dag-run-state.ts): the state of a DAG and of its
-- nodes, as the events of the run say it.
pub mod Draft
pub mod Nodes
pub mod Status
pub mod Refines
use cognitive_runtime.Prelude.{
  ℕ, ltb, leb, length, Bool, true, false, not, ◌&&◌, ◌||◌, if◌then◌else◌, Option, none, some,
  get_or, List, [], ◌∷◌, ◌++◌, map, any, every, Text, text, text_eq,
}
use cognitive_runtime.Prelude.Maps.{get, set, add_text}
use cognitive_runtime.Prelude.Sorting.{sort}
use cognitive_runtime.Contracts.Dag.{NodeKind, NodeError, NodeStatus, min_one}
use cognitive_runtime.Contracts.EventTypes.{
  is_type, run_created, dag_planned, node_queued, node_started, node_succeeded, node_failed,
  dag_completed,
}
use cognitive_runtime.Contracts.Events.{RunEvent}
use cognitive_runtime.Executor.Outcome.{Outcome, ok, thrown, Thrown, error}
use cognitive_runtime.DagState.Draft.{
  AttemptDraft, NodeDraft, new_node, with_node, seen_attempt, start_attempt, succeed_attempt,
  fail_attempt,
}

pub data DagStatus : Type 0 where
  dag_created planned running succeeded failed : DagStatus

-- The local variables of the loop over the events.
pub record DagDraft : Type 0 where
  pub dag_id : Option Text
  pub created_at : Option Text
  pub planned_at : Option Text
  pub started_at : Option Text
  pub completed_at : Option Text
  pub node_count : Option ℕ
  pub ok : Option Bool
  pub status : DagStatus
  pub nodes : List (Text × NodeDraft)
  pub known_node_ids : List Text

abbrev pub new_dag : DagDraft
new_dag = record {
  dag_id = none;
  created_at = none;
  planned_at = none;
  started_at = none;
  completed_at = none;
  node_count = none;
  ok = none;
  status = dag_created;
  nodes = [];
  known_node_ids = [];
}

-- `if (!v) v = ts`, where the empty string is falsy.
abbrev set_once : Option Text → Text → Option Text
set_once (some (c ∷ s)) ts = some (c ∷ s)
set_once _ ts = some ts

abbrev pub new_or : {A : Type 0} → Option A → Option A → Option A
new_or none old = old
new_or (some new) old = some new

-- `if (!dag_id)` the event's.
abbrev dag_id_or : Option Text → Option Text → Option Text
dag_id_or (some (c ∷ s)) given = some (c ∷ s)
dag_id_or old given = new_or given old

abbrev pub note_created : RunEvent → DagDraft → DagDraft
unfolding is_type
note_created e d = record d {
  created_at = if is_type e.type run_created then some e.ts else set_once d.created_at e.ts;
}

abbrev pub if_created : DagStatus → DagStatus → DagStatus
if_created dag_created status = status
if_created old status = old

abbrev pub if_waiting : DagStatus → DagStatus → DagStatus
if_waiting dag_created status = status
if_waiting planned status = status
if_waiting old status = old

abbrev pub see_planned : RunEvent → DagDraft → DagDraft
see_planned e d = record d {
  dag_id = new_or e.payload.dag_id d.dag_id;
  planned_at = some e.ts;
  node_count = new_or e.payload.node_count d.node_count;
  status = if_created d.status planned;
}

-- A change of the node that the event names.
abbrev pub see_node : Text → (NodeDraft → NodeDraft) → DagDraft → DagDraft
unfolding with_node add_text
see_node node_id change d = record d {
  nodes = with_node node_id change d.nodes;
  known_node_ids = add_text node_id d.known_node_ids;
}

abbrev pub see_queued : Option Text → Option NodeKind → DagDraft → DagDraft
unfolding with_node add_text
see_queued (some (c ∷ id)) kind d =
    see_node (c ∷ id) (λ n. record n { kind = new_or kind n.kind }) d
see_queued _ kind d = d

-- The node and the attempt of an event, if the code reads the event on.
unfoldable pub attempt_of : RunEvent → Option (Text × ℕ)
attempt_of e = named e.payload.node_id (get_or e.payload.attempt 0)
  where
    named : Option Text → ℕ → Option (Text × ℕ)
    named (some (c ∷ id)) attempt = if ltb attempt 1 then none else some (c ∷ id, attempt)
    named _ attempt = none

abbrev pub see_attempt :
    NodeStatus → (AttemptDraft → AttemptDraft) → Option (Text × ℕ) → DagDraft → DagDraft
unfolding with_node add_text seen_attempt
see_attempt status change none d = d
see_attempt status change (some (id, attempt)) d =
    see_node id (seen_attempt status attempt change) d

abbrev pub mark_started : Text → Option (Text × ℕ) → DagDraft → DagDraft
mark_started ts none d = d
mark_started ts (some a) d = record d {
  started_at = set_once d.started_at ts;
  status = if_waiting d.status running;
}

abbrev pub see_completed : RunEvent → DagDraft → DagDraft
see_completed e d = record d {
  dag_id = new_or e.payload.dag_id d.dag_id;
  ok = some (get_or e.payload.ok false);
  completed_at = some e.ts;
  status = if get_or e.payload.ok false then succeeded else failed;
}

-- The body of the loop, behind the lines on `created_at`.
unfoldable pub see : RunEvent → DagDraft → DagDraft
unfolding is_type with_node add_text seen_attempt attempt_of
see e d =
    if is_type e.type dag_planned
    then see_planned e d
    else if is_type e.type node_queued
    then see_queued e.payload.node_id e.payload.kind d
    else if is_type e.type node_started
    then mark_started e.ts (attempt_of e)
        (see_attempt NodeStatus.running (start_attempt e.ts) (attempt_of e) d)
    else if is_type e.type node_succeeded
    then see_attempt NodeStatus.succeeded (succeed_attempt e.ts e.payload.output_bytes)
        (attempt_of e) d
    else if is_type e.type node_failed
    then see_attempt NodeStatus.failed (fail_attempt e.ts e.payload.error) (attempt_of e) d
    else if is_type e.type dag_completed
    then see_completed e d
    else record d { dag_id = dag_id_or d.dag_id e.payload.dag_id }

unfoldable pub see_all : List RunEvent → DagDraft → DagDraft
unfolding see note_created
see_all [] d = d
see_all (e ∷ es) d = see_all es (see e (note_created e d))

abbrev pub is_running : NodeStatus → Bool
is_running NodeStatus.running = true
is_running _ = false

-- The status behind the loop.
unfoldable pub final_status : DagDraft → DagStatus
final_status d =
    if any (λ n. is_running n.1.status) d.nodes then if_waiting d.status running else d.status

abbrev pub skip_pending : NodeStatus → NodeStatus
skip_pending NodeStatus.pending = NodeStatus.skipped
skip_pending status = status

abbrev has_succeeded : DagStatus → Option Bool → Bool
has_succeeded succeeded (some true) = true
has_succeeded _ _ = false

-- The status of a node behind the loop.
unfoldable pub final_node_status : Bool → NodeDraft → NodeDraft
final_node_status all_ok n = if all_ok then record n { status = skip_pending n.status } else n

pub record DagNodeState : Type 0 where
  pub node_id : Text
  pub kind : Option NodeKind
  pub status : NodeStatus
  pub last_attempt : ℕ
  pub attempts : List AttemptDraft

pub record DagRunState : Type 0 where
  pub run_id : Text
  pub chat_id : Text
  pub dag_id : Option Text
  pub status : DagStatus
  pub created_at : Option Text
  pub planned_at : Option Text
  pub started_at : Option Text
  pub completed_at : Option Text
  pub ok : Option Bool
  pub node_count : ℕ
  pub node_order : List Text
  pub nodes : List DagNodeState

abbrev valid_if_some : {A : Type 0} → (A → Bool) → Option A → Bool
valid_if_some valid none = true
valid_if_some valid (some a) = valid a

abbrev z_error : NodeError → Bool
z_error e = min_one e.code && min_one e.message

-- `locale_lt a b` is `a.localeCompare(b) < 0`, and the formats are zod's.
module _ (locale_lt : Text → Text → Bool) (is_uuid is_datetime : Text → Bool) where
  abbrev z_attempt : AttemptDraft → Bool
  z_attempt a =
      leb 1 a.attempt
      && (valid_if_some is_datetime a.started_at
          && (valid_if_some is_datetime a.finished_at && valid_if_some z_error a.error))

  abbrev z_node_state : DagNodeState → Bool
  z_node_state n = min_one n.node_id && every z_attempt n.attempts

  unfoldable pub z_dag_run_state : DagRunState → Bool
  z_dag_run_state s =
      is_uuid s.run_id
      && (is_uuid s.chat_id
          && (valid_if_some is_uuid s.dag_id
              && (valid_if_some is_datetime s.created_at
                  && (valid_if_some is_datetime s.planned_at
                      && (valid_if_some is_datetime s.started_at
                          && (valid_if_some is_datetime s.completed_at
                              && (every min_one s.node_order && every z_node_state s.nodes)))))))

  abbrev sorted_attempts : List (ℕ × AttemptDraft) → List AttemptDraft
  unfolding sort
  sorted_attempts m = sort (λ a b. ltb a.attempt b.attempt) (map (λ e. e.1) m)

  abbrev pub found_node : Bool → Text → Option NodeDraft → NodeDraft
  unfolding final_node_status
  found_node all_ok id none = new_node id
  found_node all_ok id (some n) = final_node_status all_ok n

  unfoldable pub node_state : Bool → DagDraft → Text → DagNodeState
  unfolding get final_node_status sort
  node_state all_ok d id =
      let n = found_node all_ok id (get id d.nodes) in
      record {
        node_id = n.node_id;
        kind = n.kind;
        status = n.status;
        last_attempt = n.last_attempt;
        attempts = sorted_attempts n.attempts;
      }

  unfoldable pub state_of : (run_id chat_id : Text) → DagDraft → DagRunState
  unfolding sort final_status node_state
  state_of run_id chat_id d =
      let order = sort locale_lt d.known_node_ids in
      record {
        run_id = run_id;
        chat_id = chat_id;
        dag_id = d.dag_id;
        status = final_status d;
        created_at = d.created_at;
        planned_at = d.planned_at;
        started_at = d.started_at;
        completed_at = d.completed_at;
        ok = d.ok;
        node_count = get_or d.node_count (length order);
        node_order = order;
        nodes = map (λ id. node_state (has_succeeded (final_status d) d.ok) d id) order;
      }

  abbrev accepted : DagRunState → Bool → Outcome DagRunState
  accepted state true = Outcome.ok state
  accepted state false = thrown (error (text "Invalid DAG run state"))

  unfoldable pub derive_dag_run_state : List RunEvent → Outcome DagRunState
  unfolding see_all state_of z_dag_run_state
  derive_dag_run_state [] = thrown (error (text "DAG_STATE_INVALID: no events"))
  derive_dag_run_state (e ∷ es) =
      let state = state_of e.run_id e.chat_id (see_all (e ∷ es) new_dag) in
      accepted state (z_dag_run_state state)
