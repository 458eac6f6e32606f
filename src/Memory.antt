-- ===== src/Memory.antt =====
-- The episodic memory and the orchestrator's calls around a run (packages/runtime/src/memory/
-- m1-episodic-service.ts and memory-orchestrator.ts).
pub mod Orchestrator
pub mod Episodes
pub mod Retrieval
pub mod Quiet
pub mod Semantic
pub mod Payload
pub mod Ranking
use cognitive_runtime.Prelude.{ℕ, Bool, true, false, Option, none, some, List, [], Text}
use mathlib.Core.Bool.{cond}
use cognitive_runtime.Executor.Outcome.{Outcome}
use cognitive_runtime.Executor.Effects.{M, ◌>>=◌, pure, ask_or_throw}

pub data M1EpisodeKind : Type 0 where
  task_episode run_summary failure_case success_case : M1EpisodeKind

pub data M1EpisodeStatus : Type 0 where
  succeeded failed partial : M1EpisodeStatus

pub record M1Metadata (F : Type 0) : Type 0 where
  pub model : Option Text
  pub provider : Option Text
  pub reward_score : Option F
  pub dag_id : Option Text

pub record M1EpisodicRecord (F : Type 0) : Type 0 where
  pub id : Text
  pub chat_id : Option Text
  pub run_id : Option Text
  pub project_id : Option Text
  pub kind : M1EpisodeKind
  pub title : Text
  pub summary : Text
  pub tags : List Text
  pub status : Option M1EpisodeStatus
  pub created_at : Text
  pub source_event_ids : Option (List Text)
  pub metadata : Option (M1Metadata F)

-- The store of the episodes.
pub record M1Store (W F : Type 0) : Type 0 where
  pub insert : M1EpisodicRecord F → W → Outcome (Unit {0}) × W
  pub exists_for_run : Text → W → Outcome Bool × W
  pub get_recent :
      (chat_id project_id : Option Text) → ℕ → W → Outcome (List (M1EpisodicRecord F)) × W

-- `if (record.run_id)`, where the empty string is falsy.
abbrev pub truthy : Option Text → Option Text
truthy (some []) = none
truthy run_id = run_id

module _ {W F : Type 0} (store : M1Store W F) where
  abbrev insert_unless : M1EpisodicRecord F → Bool → M W (Unit {0})
  insert_unless episode exists = cond exists (pure tt) (ask_or_throw (store.insert episode))

  abbrev pub write_for : M1EpisodicRecord F → Option Text → M W (Unit {0})
  write_for episode (some run_id) = do
    exists ← ask_or_throw (store.exists_for_run run_id)
    insert_unless episode exists
  write_for episode none = ask_or_throw (store.insert episode)

  unfoldable pub write_episode : M1EpisodicRecord F → M W (Unit {0})
  write_episode episode = write_for episode (truthy episode.run_id)
