-- ===== src/Memory/Retrieval.antt =====
-- Retrieval before a run (retrieveContext).
use cognitive_runtime.Prelude.{
  ℕ, ◌≡◌, refl, Option, none, some, length, List, [], ◌∷◌, ◌++◌, Text, text, map,
}
use cognitive_runtime.Contracts.EventTypes.{memory_retrieved, run_context_prepared}
use cognitive_runtime.Contracts.Events.{RunEvent, create_run_event}
use cognitive_runtime.Executor.Outcome.{Outcome, ok, thrown}
use cognitive_runtime.Executor.Effects.{
  M, Services, State, ask, ask_or_throw, append, append_new, and_then, handed, settle,
}
use cognitive_runtime.Executor.Returns.{Returns, pure-Returns, and_then-Returns, caught-Returns}
use cognitive_runtime.Memory.Semantic.{search_semantic}
use cognitive_runtime.Memory.Orchestrator.{
  Tiers, RetrievedMemoryContext, recorded, prepared_data, retrieved_data, retrieve_context,
}

-- The last event is the RUN_CONTEXT_PREPARED of the run, with the numbers of records found.
pub record IsPrepared {W F R3 : Type 0} (run_id : Text) (c : RetrievedMemoryContext F R3)
    (t : State W) : Type 0 where
  pub earlier : List RunEvent
  pub event : RunEvent
  pub log : t.log ≡ earlier ++ event ∷ []
  pub type : event.type ≡ run_context_prepared
  pub own : event.run_id ≡ run_id
  pub counts : event.payload ≡ prepared_data (length c.m1) (length c.m2) (length c.m3)

module _ {W F Vector R3 : Type 0} (services : Services W) (tiers : Tiers W F Vector R3)
    (run_id chat_id : Text) (project_id : Option Text)
    (accepts : (e : RunEvent) (w : W) → services.rejects e w ≡ none) where
  recorded-Returns :
      {A : Type 0} (tier query : Text) (top_k : ℕ) (id : A → Text) (o : Outcome (List A))
      (s : State W)
      → Returns
          (λ _ _. Unit {0})
          (recorded services tiers run_id chat_id project_id tier query top_k id o s)
  unfolding recorded
  recorded-Returns tier query top_k id (thrown e) s = pure-Returns _ [] s tt
  recorded-Returns tier query top_k id (ok results) s =
      and_then-Returns (λ _ _. Unit {0}) _
        (caught-Returns (λ _ _. Unit {0})
          (append_new services run_id chat_id memory_retrieved
            (retrieved_data tier query top_k (map id results)) s)
          _ (λ _ _. tt) (λ e t. pure-Returns _ tt t tt))
        (λ _ t _. pure-Returns _ results t tt)

  found-Returns :
      {A : Type 0} (tier query : Text) (top_k : ℕ) (id : A → Text) (search : M W (List A))
      (s : State W)
      → Returns
          (λ _ _. Unit {0})
          (settle search (recorded services tiers run_id chat_id project_id tier query top_k id) s)
  unfolding handed
  found-Returns tier query top_k id search s =
      recorded-Returns tier query top_k id (search s).0 (search s).1

  IsPrepared-Returns :
      (c : RetrievedMemoryContext F R3) (s : State W)
      → Returns (IsPrepared run_id) (
          and_then
            (append_new services run_id chat_id run_context_prepared
              (prepared_data (length c.m1) (length c.m2) (length c.m3))
              s)
            (λ _ t. (ok c, t)))
  unfolding append_new append and_then ask
  IsPrepared-Returns c s =
      rw
        (accepts
          (create_run_event (services.iso_now s.world).0 run_id chat_id run_context_prepared
            (prepared_data (length c.m1) (length c.m2) (length c.m3)))
          (services.iso_now s.world).1)
        (pure-Returns (IsPrepared run_id) c _ (record {
          earlier = s.log;
          event =
              create_run_event (services.iso_now s.world).0 run_id chat_id run_context_prepared
                (prepared_data (length c.m1) (length c.m2) (length c.m3));
          log = refl;
          type = refl;
          own = refl;
          counts = refl;
        }))

  -- If the store accepts events, the retrieval returns whatever the three searches do, and the last
  -- event of the log is then the run's RUN_CONTEXT_PREPARED with the numbers of records returned.
  pub retrieve_context-prepares :
      (message : Text) (s : State W)
      → Returns
          (IsPrepared run_id)
          (retrieve_context services tiers run_id chat_id project_id message s)
  unfolding retrieve_context
  retrieve_context-prepares message s =
      and_then-Returns (λ _ _. Unit {0}) _
        (found-Returns (text "M1") message 3 (λ r. r.id)
          (ask_or_throw (tiers.m1.get_recent (some chat_id) project_id 3)) s)
        λ episodes t _.
          and_then-Returns (λ _ _. Unit {0}) _
            (found-Returns (text "M2") message 5 (λ r. r.id) (search_semantic tiers.m2 message 5 [])
              t)
            λ found u _.
              and_then-Returns (λ _ _. Unit {0}) _
                (found-Returns (text "M3") message 3 tiers.id_3
                  (ask_or_throw (tiers.search_procedures message 3)) u)
                (λ procedures v _.
                  IsPrepared-Returns (record { m1 = episodes; m2 = found; m3 = procedures }) v)
