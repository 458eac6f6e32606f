-- ===== src/Memory/Quiet.antt =====
-- The memory's calls around a run complete no run, so that the worker still completes it at most
-- once when they are the orchestrator's (apps/worker/src/index.ts).
use cognitive_runtime.Prelude.{
  ℕ, ◌≤◌, ◌≡◌, refl, Bool, Option, none, some, List, [], ◌∷◌, Text, text,
}
use cognitive_runtime.Contracts.Json.{field_of}
use cognitive_runtime.Contracts.Dag.{DagSpec}
use cognitive_runtime.Contracts.EventTypes
use cognitive_runtime.Contracts.EventTypes.{is_type}
use cognitive_runtime.Contracts.Events.{RunEvent}
use cognitive_runtime.Executor.Outcome.{Outcome, ok, thrown}
use cognitive_runtime.Executor.Effects.{Services, State, M, settle}
use cognitive_runtime.Executor.Respects.{
  IsStable, Respects, bind-Respects, settle-Respects, try_catch-Respects, cond-Respects,
  lift-Respects, ask-Respects, ask_or_throw-Respects,
}
use cognitive_runtime.Runs.Routes.{RunJob}
use cognitive_runtime.Worker.Quiet.{completions, IsQuiet, IsQuiet-IsStable, append_new-IsQuiet}
use cognitive_runtime.Worker.Once.{work-IsOnce}
use cognitive_runtime.Worker.Job.{Runtime, work}
use cognitive_runtime.Memory.{M1EpisodicRecord, M1Store, write_for, write_episode}
use cognitive_runtime.Memory.Semantic.{
  M2SearchResult, string_of, created, rank, rank_all, search_semantic,
}
use cognitive_runtime.Memory.Orchestrator.{
  Tiers, RetrievedMemoryContext, recorded, retrieve_context, write_m1_summary, maybe_write_from_run,
}

module _ {W F Vector R3 : Type 0} (services : Services W) (tiers : Tiers W F Vector R3)
    (run_id chat_id : Text) (project_id : Option Text) where
  abbrev stable : IsStable {W = W} (IsQuiet run_id)
  stable = IsQuiet-IsStable run_id

  recorded-IsQuiet :
      {A : Type 0} (tier query : Text) (top_k : ℕ) (id : A → Text) (o : Outcome (List A))
      → Respects
          (IsQuiet run_id)
          (recorded services tiers run_id chat_id project_id tier query top_k id o)
  unfolding recorded is_type
  recorded-IsQuiet tier query top_k id (thrown e) = lift-Respects stable _
  recorded-IsQuiet tier query top_k id (ok results) =
      bind-Respects stable
        (try_catch-Respects stable
          (append_new-IsQuiet services run_id chat_id EventTypes.memory_retrieved _ refl)
          (λ e. lift-Respects stable _))
        (λ _. lift-Respects stable _)

  found-IsQuiet :
      {A : Type 0} (tier query : Text) (top_k : ℕ) (id : A → Text) (search : M W (List A))
      → Respects (IsQuiet run_id) search
      → Respects
          (IsQuiet run_id)
          (settle search (recorded services tiers run_id chat_id project_id tier query top_k id))
  found-IsQuiet tier query top_k id search quiet =
      settle-Respects stable quiet (recorded-IsQuiet tier query top_k id)

  rank-IsQuiet : (r : M2SearchResult F) → Respects (IsQuiet run_id) (rank tiers.m2 r)
  unfolding rank
  rank-IsQuiet r =
      bind-Respects stable (created-IsQuiet (string_of (field_of (text "created_at") r.payload)))
        (λ at. lift-Respects stable _)
    where
      created-IsQuiet : (at : Option Text) → Respects (IsQuiet run_id) (created tiers.m2 at)
      created-IsQuiet (some at) = lift-Respects stable _
      created-IsQuiet none = ask-Respects stable _

  rank_all-IsQuiet :
      (rs : List (M2SearchResult F)) → Respects (IsQuiet run_id) (rank_all tiers.m2 rs)
  unfolding rank_all
  rank_all-IsQuiet [] = lift-Respects stable _
  rank_all-IsQuiet (r ∷ rs) =
      bind-Respects stable (rank-IsQuiet r)
        λ ranked. bind-Respects stable (rank_all-IsQuiet rs) (λ others. lift-Respects stable _)

  search_semantic-IsQuiet :
      (query : Text) (top_k : ℕ) (tags : List Text)
      → Respects (IsQuiet run_id) (search_semantic tiers.m2 query top_k tags)
  unfolding search_semantic
  search_semantic-IsQuiet query top_k tags =
      bind-Respects stable (ask_or_throw-Respects stable _) λ vector.
        bind-Respects stable (ask_or_throw-Respects stable _) λ results.
          bind-Respects stable (rank_all-IsQuiet results) (λ ranked. lift-Respects stable _)

  pub retrieve_context-IsQuiet :
      (message : Text)
      → Respects
          (IsQuiet run_id)
          (retrieve_context services tiers run_id chat_id project_id message)
  unfolding retrieve_context is_type
  retrieve_context-IsQuiet message =
      bind-Respects stable (found-IsQuiet _ _ _ _ _ (ask_or_throw-Respects stable _)) λ _.
        bind-Respects stable (found-IsQuiet _ _ _ _ _ (search_semantic-IsQuiet message 5 [])) λ _.
          bind-Respects stable (found-IsQuiet _ _ _ _ _ (ask_or_throw-Respects stable _)) λ _.
            bind-Respects stable
              (append_new-IsQuiet services run_id chat_id EventTypes.run_context_prepared _ refl)
              (λ _. lift-Respects stable _)

  write_for-IsQuiet :
      (store : M1Store W F) (e : M1EpisodicRecord F) (id : Option Text)
      → Respects (IsQuiet run_id) (write_for store e id)
  write_for-IsQuiet store e none = ask_or_throw-Respects stable _
  write_for-IsQuiet store e (some id) =
      bind-Respects stable (ask_or_throw-Respects stable _) λ exists.
        cond-Respects stable exists (lift-Respects stable _) (ask_or_throw-Respects stable _)

  write_m1_summary-IsQuiet :
      (events : List RunEvent) (dag_ok : Bool) (score : Option F)
      → Respects
          (IsQuiet run_id)
          (write_m1_summary services tiers run_id chat_id project_id events dag_ok score)
  unfolding write_m1_summary write_episode is_type
  write_m1_summary-IsQuiet events dag_ok score =
      bind-Respects stable
        (append_new-IsQuiet services run_id chat_id EventTypes.memory_write_requested _ refl)
        λ _. bind-Respects stable (ask-Respects stable _) λ record_id.
          bind-Respects stable (ask-Respects stable _) λ now.
            bind-Respects stable (write_for-IsQuiet tiers.m1 _ _)
              λ _. append_new-IsQuiet services run_id chat_id EventTypes.memory_written _ refl

  pub maybe_write_from_run-IsQuiet :
      (events : List RunEvent) (dag_ok : Bool) (score : Option F)
      → Respects
          (IsQuiet run_id)
          (maybe_write_from_run services tiers run_id chat_id project_id events dag_ok score)
  unfolding maybe_write_from_run is_type
  maybe_write_from_run-IsQuiet events dag_ok score =
      bind-Respects stable (write_m1_summary-IsQuiet events dag_ok score)
        λ _. append_new-IsQuiet services run_id chat_id EventTypes.memory_skipped _ refl

module _ {W F Vector R3 Decision : Type 0} (services : Services W) (tiers : Tiers W F Vector R3)
    (runtime : Runtime W F (RetrievedMemoryContext F R3) Decision) (job : RunJob) where
  -- The worker's calls of the orchestrator.
  unfoldable pub with_memory : Runtime W F (RetrievedMemoryContext F R3) Decision
  with_memory = record runtime {
    retrieve_context = λ j. retrieve_context services tiers j.run_id j.chat_id none j.message;
    maybe_write = λ j events dag_ok score.
        maybe_write_from_run services tiers j.run_id j.chat_id none events dag_ok score;
  }

  -- If the other processes, the cache and the planner complete no run, a run with at most one
  -- RUN_COMPLETED still has at most one behind a job whose memory calls are the orchestrator's,
  -- whatever the stores refuse and whichever call throws.
  pub with_memory-IsOnce :
      ((w : W) → completions job.run_id (runtime.arrivals w).0 ≡ 0)
      → ((c : RetrievedMemoryContext F R3)
          → Respects (IsQuiet job.run_id) (runtime.set_context job.run_id c))
      → ((dag : DagSpec) → Respects (IsQuiet job.run_id) (runtime.plan job dag))
      → (s : State W) → completions job.run_id s.log ≤ 1
      → completions job.run_id (work services with_memory job s).1.log ≤ 1
  unfolding with_memory
  with_memory-IsOnce arrivals set_context plan = work-IsOnce services with_memory job (record {
    arrivals = arrivals;
    retrieve_context =
        retrieve_context-IsQuiet services tiers job.run_id job.chat_id none job.message;
    set_context = set_context;
    plan = plan;
    maybe_write = maybe_write_from_run-IsQuiet services tiers job.run_id job.chat_id none;
  })
