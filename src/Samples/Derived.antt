-- ===== src/Samples/Derived.antt =====
-- The theorems on the derived state, at the events of a node that failed once.
use cognitive_runtime.Prelude.{◌≡◌, true, Bool, some, List, [], ◌∷◌, Text, text}
use cognitive_runtime.Contracts.EventTypes
use cognitive_runtime.Contracts.EventTypes.{RunEventType}
use cognitive_runtime.Contracts.Events.{RunEvent, no_data}
use cognitive_runtime.DagState.{dag_created, new_dag, see_all, final_status, node_state}
use cognitive_runtime.DagState.Nodes.{IsDerived, node_state-IsDerived}
use cognitive_runtime.DagState.Status.{abstract_status}
use cognitive_runtime.DagState.Refines.{final_status-refines}

abbrev event : RunEventType → RunEvent
event type = record {
  ts = text "1000";
  run_id = text "r";
  chat_id = text "c";
  type = type;
  payload = record no_data { node_id = some (text "b"); attempt = some 1 };
}

abbrev failed_once : List RunEvent
failed_once =
    event EventTypes.dag_planned ∷ event EventTypes.node_started ∷ event EventTypes.node_failed ∷ []

abbrev before : Text → Text → Bool
before a b = true

abbrev valid : Text → Bool
valid t = true

node_state-IsDerived_example :
    IsDerived
      (text "b")
      failed_once
      true
      (node_state before valid valid true (see_all failed_once new_dag) (text "b"))
node_state-IsDerived_example = node_state-IsDerived before valid valid (text "b") failed_once true

final_status-refines_example :
    final_status (see_all failed_once new_dag) ≡ abstract_status failed_once dag_created
final_status-refines_example = final_status-refines failed_once
