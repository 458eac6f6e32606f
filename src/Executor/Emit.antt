-- ===== src/Executor/Emit.antt =====
-- The closure `emit` of executeDag: an event is appended unless its key was seen.
use cognitive_runtime.Prelude.{
  ℕ, Bool, true, false, Option, none, some, get_or, List, [], ◌∷◌, ◌++◌, Text, text, decimal,
}
use cognitive_runtime.Prelude.Maps.{has_text, add_text}
use cognitive_runtime.Contracts.Dag.{DagSpec}
use cognitive_runtime.Contracts.EventTypes.{RunEventType, type_name}
use cognitive_runtime.Contracts.Events.{EventData, RunEvent}
use cognitive_runtime.Executor.Effects.{Services, M, ◌>>◌, pure, append_new}

abbrev shown : Option ℕ → Text
unfolding decimal
shown none = []
shown (some n) = decimal n

-- `${type}:${dagId}:${nodeId}:${attempt}`
unfoldable pub key_of : RunEventType → EventData → Text
unfolding type_name decimal
key_of type d =
    type_name type
    ++ (text ":"
        ++ (get_or d.dag_id []
            ++ (text ":" ++ (get_or d.node_id [] ++ (text ":" ++ shown d.attempt)))))

-- The loop that fills `seen` from the stored events.
unfoldable pub seen_keys : List Text → List RunEvent → List Text
unfolding key_of add_text
seen_keys seen [] = seen
seen_keys seen (e ∷ es) = seen_keys (add_text (key_of e.type e.payload) seen) es

module _ {W : Type 0} (services : Services W) (dag : DagSpec) where
  abbrev mark : Text → M W (Unit {0})
  mark key s = pure tt (record s { seen = s.seen ++ key ∷ [] })

  abbrev emit_unless : Bool → Text → RunEventType → EventData → M W (Unit {0})
  emit_unless true key type d = pure tt
  emit_unless false key type d = do append_new services dag.run_id dag.chat_id type d; mark key

  unfoldable pub emit : RunEventType → EventData → M W (Unit {0})
  unfolding key_of has_text
  emit type d s = emit_unless (has_text (key_of type d) s.seen) (key_of type d) type d s
