-- ===== src/Memory/Orchestrator.antt =====
-- retrieveContext and maybeWriteFromRun of the memory orchestrator (packages/runtime/src/memory/
-- memory-orchestrator.ts). The search of the third tier is an argument, of which only the ids of
-- the records matter.
use cognitive_runtime.Prelude.{
  ℕ, ltb, length, take, Bool, true, false, if◌then◌else◌, Option, none, some, is_some, List, [],
  ◌∷◌, ◌++◌, map, any, Text, text, decimal,
}
use cognitive_runtime.Contracts.Json.{Json, str, num, arr, fields, string_items}
use cognitive_runtime.Contracts.EventTypes.{
  is_type, run_created, dag_planned, llm_completed, reply_constraint_evaluated, memory_retrieved,
  run_context_prepared, memory_write_requested, memory_written, memory_skipped,
}
use cognitive_runtime.Contracts.Events.{EventData, RunEvent, no_data}
use cognitive_runtime.Executor.Outcome.{Outcome, ok, thrown}
use cognitive_runtime.Executor.Effects.{
  Services, M, ◌>>=◌, ◌>>◌, pure, ask, ask_or_throw, try_catch, settle, append_new,
}
use cognitive_runtime.Memory.Semantic.{M2SemanticRecord, Semantic, search_semantic}
use cognitive_runtime.Memory.{
  M1EpisodicRecord, M1Store, success_case, failure_case, succeeded, failed, write_episode,
}

pub record Tiers (W F Vector R3 : Type 0) : Type 0 where
  pub m1 : M1Store W F
  pub m2 : Semantic W F Vector
  pub search_procedures : (query : Text) → ℕ → W → Outcome (List R3) × W
  pub id_3 : R3 → Text
  pub random_uuid : W → Text × W
  pub to_fixed_3 : F → Text

pub record RetrievedMemoryContext (F R3 : Type 0) : Type 0 where
  pub m1 : List (M1EpisodicRecord F)
  pub m2 : List (M2SemanticRecord F)
  pub m3 : List R3

abbrev pub retrieved_data : (tier query : Text) → ℕ → List Text → EventData
retrieved_data tier query top_k ids = record no_data {
  rest = fields (
      (text "tier", str tier)
      ∷ (text "query", str (take 200 query))
      ∷ (text "top_k", num top_k)
      ∷ (text "result_count", num (length ids))
      ∷ (text "record_ids", arr (string_items ids))
      ∷ []);
}

abbrev pub prepared_data : ℕ → ℕ → ℕ → EventData
prepared_data m1 m2 m3 = record no_data {
  rest =
      fields
        ((text "m1_count", num m1) ∷ (text "m2_count", num m2) ∷ (text "m3_count", num m3) ∷ []);
}

abbrev pub tier_data : Text → List (Text × Json) → EventData
tier_data tier more = record no_data { rest = fields ((text "tier", str tier) ∷ more) }

abbrev nonempty : Option Text → Option Text
nonempty (some (c ∷ s)) = some (c ∷ s)
nonempty _ = none

unfoldable pub extract_user_message : List RunEvent → Option Text
unfolding is_type
extract_user_message [] = none
extract_user_message (e ∷ es) =
    let later = extract_user_message es in
    if is_type e.type run_created
    then (if is_some (nonempty e.payload.message) then nonempty e.payload.message else later)
    else later

unfoldable pub extract_node_count : List RunEvent → Option ℕ
unfolding is_type
extract_node_count [] = none
extract_node_count (e ∷ es) =
    let later = extract_node_count es in
    if is_type e.type dag_planned
    then (if is_some e.payload.node_count then e.payload.node_count else later)
    else later

abbrev title_of : (run_id : Text) → Option Text → Text
title_of run_id (some message) =
    take 80 message ++ (if ltb 80 (length message) then text "..." else [])
title_of run_id none = text "Run " ++ take 8 run_id

abbrev count_part : Option ℕ → Text
count_part none = []
count_part (some n) = text " DAG had " ++ (decimal n ++ text " nodes.")

abbrev message_part : Option Text → Text
message_part none = []
message_part (some message) = text " User asked: \"" ++ (take 200 message ++ text "\"")

abbrev outcome_name : Bool → Text
outcome_name true = text "succeeded"
outcome_name false = text "failed"

abbrev status_tag : Bool → Text
status_tag true = text "[SUCCEEDED] "
status_tag false = text "[FAILED] "

module _ {W F Vector R3 : Type 0} (services : Services W) (tiers : Tiers W F Vector R3)
    (run_id chat_id : Text) (project_id : Option Text) where
  open tiers use {m1, m2, search_procedures, id_3, random_uuid, to_fixed_3}

  -- What a try block leaves in its variable: the results that were found, whether or not the event
  -- was stored, and the empty list if the search failed.
  unfoldable pub recorded :
      {A : Type 0} → (tier query : Text) → ℕ → (A → Text) → Outcome (List A) → M W (List A)
  recorded tier query top_k id (thrown e) = pure []
  recorded tier query top_k id (ok results) = do
    try_catch
        (append_new services run_id chat_id memory_retrieved
          (retrieved_data tier query top_k (map id results)))
        (λ e. pure tt)
    pure results

  unfoldable pub retrieve_context : Text → M W (RetrievedMemoryContext F R3)
  retrieve_context message = do
    episodes ←
        settle (ask_or_throw (m1.get_recent (some chat_id) project_id 3))
          (recorded (text "M1") message 3 (λ r. r.id))
    found ← settle (search_semantic m2 message 5 []) (recorded (text "M2") message 5 (λ r. r.id))
    procedures ←
        settle (ask_or_throw (search_procedures message 3)) (recorded (text "M3") message 3 id_3)
    append_new services run_id chat_id run_context_prepared
        (prepared_data (length episodes) (length found) (length procedures))
    pure (record { m1 = episodes; m2 = found; m3 = procedures })

  abbrev score_part : Option F → Text
  score_part none = []
  score_part (some score) = text " Reward score: " ++ (to_fixed_3 score ++ text ".")

  -- The parts, joined by spaces.
  unfoldable pub summary_of : Bool → Option ℕ → Option F → Option Text → Text
  summary_of dag_ok count score message =
      text "Run "
      ++ (outcome_name dag_ok
          ++ (text "." ++ (count_part count ++ (score_part score ++ message_part message))))

  abbrev tags_of : Bool → List RunEvent → List Text
  unfolding is_type
  tags_of dag_ok events =
      outcome_name dag_ok
      ∷ ((if any (λ e. is_type e.type llm_completed) events then text "llm" ∷ [] else [])
          ++ (if any (λ e. is_type e.type reply_constraint_evaluated) events
              then text "constraint" ∷ []
              else []))

  unfoldable pub episode_of :
      (record_id now : Text) → List RunEvent → Bool → Option F → M1EpisodicRecord F
  unfolding extract_user_message extract_node_count summary_of tags_of
  episode_of record_id now events dag_ok score =
      let message = extract_user_message events in
      record {
        id = record_id;
        chat_id = some chat_id;
        run_id = some run_id;
        project_id = project_id;
        kind = if dag_ok then success_case else failure_case;
        title = status_tag dag_ok ++ title_of run_id message;
        summary = summary_of dag_ok (extract_node_count events) score message;
        tags = tags_of dag_ok events;
        status = some (if dag_ok then succeeded else failed);
        created_at = now;
        source_event_ids = some (run_id ∷ []);
        metadata = some (record {
          model = some (text "qwen-2.5-coder-3b");
          provider = some (text "qwen");
          reward_score = score;
          dag_id = some run_id;
        });
      }

  unfoldable pub write_m1_summary : List RunEvent → Bool → Option F → M W (Unit {0})
  unfolding episode_of
  write_m1_summary events dag_ok score = do
    append_new services run_id chat_id memory_write_requested (
        tier_data (text "M1") (
          (text "record_kind", str (text "run_summary"))
          ∷ (
            text "reason",
            str (text "Run " ++ (outcome_name dag_ok ++ text " — writing M1 summary episode.")),
          )
          ∷ []))
    record_id ← ask random_uuid
    now ← ask services.iso_now
    let episode = episode_of record_id now events dag_ok score
    write_episode m1 episode
    append_new services run_id chat_id memory_written (
        tier_data (text "M1")
          ((text "record_id", str record_id) ∷ (text "summary", str episode.title) ∷ []))

  unfoldable pub maybe_write_from_run : List RunEvent → Bool → Option F → M W (Unit {0})
  maybe_write_from_run events dag_ok score = do
    write_m1_summary events dag_ok score
    append_new services run_id chat_id memory_skipped (
        tier_data (text "M2") (
          (
            text "reason",
            str (
                text
                  "Phase 5 v1: no automatic M2 extraction from runs; use POST /memory/write for explicit M2 writes."),
          )
          ∷ []))
