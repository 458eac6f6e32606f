-- ===== src/DagState/Draft.antt =====
-- The drafts of nodes and attempts that deriveDagRunState keeps in its maps.
use cognitive_runtime.Prelude.{
  ℕ, ◌==◌, max, if◌then◌else◌, Option, none, some, get_or, List, [], ◌∷◌, Text,
}
use cognitive_runtime.Prelude.Maps.{get, set}
use cognitive_runtime.Contracts.Dag.{NodeKind, NodeError, NodeStatus}

pub data AttemptStatus : Type 0 where
  attempt_running attempt_succeeded attempt_failed : AttemptStatus

pub record AttemptDraft : Type 0 where
  pub attempt : ℕ
  pub status : AttemptStatus
  pub started_at : Option Text
  pub finished_at : Option Text
  pub error : Option NodeError
  pub bytes : Option ℕ

pub record NodeDraft : Type 0 where
  pub node_id : Text
  pub kind : Option NodeKind
  pub status : NodeStatus
  pub last_attempt : ℕ
  pub attempts : List (ℕ × AttemptDraft)

abbrev pub new_attempt : ℕ → AttemptDraft
new_attempt attempt = record {
  attempt = attempt;
  status = attempt_running;
  started_at = none;
  finished_at = none;
  error = none;
  bytes = none;
}

abbrev pub new_node : Text → NodeDraft
new_node node_id = record {
  node_id = node_id;
  kind = none;
  status = NodeStatus.pending;
  last_attempt = 0;
  attempts = [];
}

-- ensureNode, and what the code then does to the node.
unfoldable pub with_node :
    Text → (NodeDraft → NodeDraft) → List (Text × NodeDraft) → List (Text × NodeDraft)
unfolding get set
with_node node_id change nodes =
    set node_id (change (get_or (get node_id nodes) (new_node node_id))) nodes

-- ensureAttempt, likewise.
unfoldable pub with_attempt :
    ℕ → (AttemptDraft → AttemptDraft) → List (ℕ × AttemptDraft) → List (ℕ × AttemptDraft)
with_attempt attempt change [] = (attempt, change (new_attempt attempt)) ∷ []
with_attempt attempt change ((k, a) ∷ m) =
    let rest = with_attempt attempt change m in
    if k == attempt then (k, change a) ∷ m else (k, a) ∷ rest

-- `a.started_at ?? ts`
abbrev or_ts : Option Text → Text → Text
or_ts none ts = ts
or_ts (some old) ts = old

-- What an event of the attempt does to the node.
unfoldable pub seen_attempt : NodeStatus → ℕ → (AttemptDraft → AttemptDraft) → NodeDraft → NodeDraft
unfolding with_attempt
seen_attempt status attempt change n = record n {
  status = status;
  last_attempt = max n.last_attempt attempt;
  attempts = with_attempt attempt change n.attempts;
}

abbrev pub start_attempt : Text → AttemptDraft → AttemptDraft
start_attempt ts a = record a {
  status = attempt_running;
  started_at = some (or_ts a.started_at ts);
}

abbrev keep_or : {A : Type 0} → Option A → Option A → Option A
keep_or none old = old
keep_or (some new) old = some new

abbrev pub succeed_attempt : Text → Option ℕ → AttemptDraft → AttemptDraft
succeed_attempt ts bytes a = record a {
  status = attempt_succeeded;
  started_at = some (or_ts a.started_at ts);
  finished_at = some ts;
  bytes = keep_or bytes a.bytes;
}

abbrev pub fail_attempt : Text → Option NodeError → AttemptDraft → AttemptDraft
fail_attempt ts error a = record a {
  status = attempt_failed;
  started_at = some (or_ts a.started_at ts);
  finished_at = some ts;
  error = keep_or error a.error;
}
