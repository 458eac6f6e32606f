-- ===== src/Samples/Memory.antt =====
-- The theorems on the memory, over a store that is a list of the episodes' runs and at searches that
-- fail or find nothing.
use cognitive_runtime.Prelude.{
  ℕ, ltb, ◌+◌, ◌≤◌, ◌≡◌, refl, Bool, false, Option, none, some, List, [], ◌∷◌, keep, length, Text,
  text, text_eq, arith,
}
use cognitive_runtime.Executor.Outcome.{Outcome, ok, thrown, error}
use cognitive_runtime.Executor.Effects.{State}
use cognitive_runtime.Executor.Returns.{Returns}
use cognitive_runtime.Worker.Quiet.{completions}
use cognitive_runtime.Worker.Job.{Runtime, work}
use cognitive_runtime.Samples.Semantic.{semantic}
use cognitive_runtime.Samples.Worker.{services, runtime_with, job, still, state_at}
use cognitive_runtime.Contracts.EventTypes.{is_type}
use cognitive_runtime.Memory.{M1EpisodicRecord, M1Store, success_case, write_episode}
use cognitive_runtime.Memory.Orchestrator.{Tiers, RetrievedMemoryContext, retrieve_context}
use cognitive_runtime.Memory.Episodes.{IsM1Store, is_of_run, write_episode-IsSingle}
use cognitive_runtime.Memory.Retrieval.{IsPrepared, retrieve_context-prepares}
use cognitive_runtime.Memory.Quiet.{with_memory, with_memory-IsOnce}

-- The run ids of the episodes that are stored.
abbrev World : Type 0
World = List (Option Text)

abbrev rows : Text → World → ℕ
rows run_id w = length (keep (is_of_run run_id) w)

abbrev m1 : M1Store World ℕ
m1 = record {
  insert = λ e w. (ok tt, e.run_id ∷ w);
  exists_for_run = λ run_id w. (ok (ltb 0 (rows run_id w)), w);
  get_recent = λ chat_id project_id n w. (ok [], w);
}

m1-IsM1Store : IsM1Store m1
m1-IsM1Store = record {
  episodes = rows;
  answers = λ run_id w b h. answered (ltb 0 (rows run_id w)) b h;
  reads = λ own run_id w. refl;
  inserts = λ run_id e w. ground arith;
}
  where
    answered : (a b : Bool) → ◌≡◌ {A = Outcome Bool} (ok a) (ok b) → b ≡ a
    answered a b h = cc

abbrev episode : M1EpisodicRecord ℕ
episode = record {
  id = text "1";
  chat_id = none;
  run_id = some (text "r");
  project_id = none;
  kind = success_case;
  title = text "t";
  summary = text "s";
  tags = [];
  status = none;
  created_at = text "now";
  source_event_ids = none;
  metadata = none;
}

abbrev stored : State World
stored = record { log = []; seen = []; world = some (text "r") ∷ [] }

write_episode-IsSingle_example : rows (text "r") (write_episode m1 episode stored).1.world ≤ 1
unfolding text_eq m1-IsM1Store
write_episode-IsSingle_example =
    write_episode-IsSingle m1 m1-IsM1Store 114 [] episode stored (omega arith)

-- The search of the first tier fails, that of the second finds two records, and that of
-- the third none.
abbrev tiers : Tiers ℕ ℕ (Unit {0}) Text
tiers = record {
  m1 = record {
    insert = λ e w. (ok tt, w + 1);
    exists_for_run = λ run_id w. (ok false, w);
    get_recent = λ chat_id project_id n w. (thrown (error (text "no database")), w);
  };
  m2 = semantic;
  search_procedures = λ query n w. (ok [], w);
  id_3 = λ id. id;
  random_uuid = λ w. (text "id", w + 1);
  to_fixed_3 = λ f. text "0.500";
}

retrieve_context-prepares_example :
    Returns
      (IsPrepared job.run_id)
      (retrieve_context services tiers job.run_id job.chat_id none (text "hi") (state_at 0))
retrieve_context-prepares_example =
    retrieve_context-prepares services tiers job.run_id job.chat_id none (λ e w. refl) (text "hi")
      (state_at 0)

abbrev runtime : Runtime ℕ ℕ (RetrievedMemoryContext ℕ Text) (Unit {0})
runtime = runtime_with (RetrievedMemoryContext ℕ Text)

with_memory-IsOnce_example :
    completions job.run_id
      (work services (with_memory services tiers runtime job) job (state_at 0)).1.log
    ≤ 1
unfolding completions text_eq is_type
with_memory-IsOnce_example =
    with_memory-IsOnce services tiers runtime job (λ w. refl) (λ c. record { after = still })
      (λ dag. record { after = still }) (state_at 0) (omega arith)
