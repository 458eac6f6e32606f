-- ===== src/Memory/Semantic.antt =====
-- The semantic memory: the write and the search with its ranking
-- (packages/runtime/src/memory/m2-semantic-service.ts). The embedding provider and the vector
-- database are arguments.
use cognitive_runtime.Prelude.{
  ℕ, ◌*◌, max, ◌==◌, ltb, Bool, false, ◌&&◌, ◌||◌, if◌then◌else◌, Option, none, some, get_or, List,
  [], ◌∷◌, map, take, Text, text, text_eq,
}
use cognitive_runtime.Prelude.Sorting.{sort}
use cognitive_runtime.Contracts.Json.{
  Json, null, str, arr, Items, nil, Fields, field_of, fields, object, string_items,
}
use cognitive_runtime.Contracts.Numbers.{Numbers}
use cognitive_runtime.Executor.Outcome.{Outcome}
use cognitive_runtime.Executor.Effects.{M, ◌>>=◌, pure, ask, ask_or_throw}

-- `provenance`, `tags` and `metadata` are what is found there, since the code casts them unchecked.
pub record M2SemanticRecord (F : Type 0) : Type 0 where
  pub id : Text
  pub content : Text
  pub embedding_model : Text
  pub source_type : Text
  pub source_ref : Option Text
  pub provenance : Json
  pub tags : Items
  pub confidence : F
  pub created_at : Text
  pub metadata : Option Json

pub record M2SearchResult (F : Type 0) : Type 0 where
  pub id : Text
  pub score : F
  pub payload : Fields

pub record RankedM2Result (F : Type 0) : Type 0 where
  pub memory : M2SemanticRecord F
  pub final_score : F

-- `time_of` is `getTime`, `none` where it is NaN, and `locale_lt a b` is `a.localeCompare(b) < 0`.
pub record Semantic (W F Vector : Type 0) : Type 0 where
  pub numbers : Numbers F
  pub embed : Text → W → Outcome Vector × W
  pub upsert : Text → Vector → Fields → W → Outcome (Unit {0}) × W
  pub search : Vector → ℕ → Fields → W → Outcome (List (M2SearchResult F)) × W
  pub iso_now : W → Text × W
  pub time_of : Text → Option ℕ
  pub locale_lt : Text → Text → Bool

-- `v ?? null`
abbrev pub or_null : Option Json → Json
or_null none = null
or_null (some v) = v

-- `v ?? undefined`
abbrev pub not_null : Option Json → Option Json
not_null (some null) = none
not_null v = v

abbrev pub string_of : Option Json → Option Text
string_of (some (str t)) = some t
string_of _ = none

abbrev pub items_of : Option Json → Items
items_of (some (arr items)) = items
items_of _ = nil

abbrev pub ref_json : Option Text → Json
ref_json none = null
ref_json (some ref) = str ref

abbrev pub filters_of : List Text → Fields
filters_of [] = fields []
filters_of (t ∷ ts) = fields ((text "tags", arr (string_items (t ∷ ts))) ∷ [])

module _ {W F Vector : Type 0} (services : Semantic W F Vector) where
  open services use {numbers, embed, upsert, search, iso_now, time_of, locale_lt}
  open numbers use {literal, add, mul, leb, json_of, number_of}

  unfoldable pub compute_provenance_bonus : Text → F
  unfolding text_eq
  compute_provenance_bonus source_type =
      if text_eq source_type (text "research_note") || text_eq source_type (text "external_doc")
      then literal 10 1
      else if text_eq source_type (text "run_event")
      then literal 7 1
      else literal 5 1

  unfoldable pub compute_final_score : (vector_score confidence : F) → Text → F
  unfolding compute_provenance_bonus
  compute_final_score vector_score confidence source_type =
      add (add (mul (literal 80 2) vector_score) (mul (literal 10 2) confidence))
        (mul (literal 10 2) (compute_provenance_bonus source_type))

  unfoldable pub payload_of : M2SemanticRecord F → Fields
  payload_of r = fields (
      (text "text", str r.content)
      ∷ (text "embedding_model", str r.embedding_model)
      ∷ (text "source_type", str r.source_type)
      ∷ (text "source_ref", ref_json r.source_ref)
      ∷ (text "provenance", r.provenance)
      ∷ (text "tags", arr r.tags)
      ∷ (text "confidence", json_of r.confidence)
      ∷ (text "created_at", str r.created_at)
      ∷ (text "metadata", or_null r.metadata)
      ∷ (text "tier", str (text "M2"))
      ∷ [])

  unfoldable pub write_semantic : M2SemanticRecord F → M W (Unit {0})
  unfolding payload_of
  write_semantic r = do
    vector ← ask_or_throw (embed r.content)
    ask_or_throw (upsert r.id vector (payload_of r))

  -- The time of the creation, or the clock's.
  abbrev pub created : Option Text → M W Text
  created (some t) = pure t
  created none = ask iso_now

  unfoldable pub ranked_of : M2SearchResult F → (created_at : Text) → RankedM2Result F
  unfolding field_of compute_final_score
  ranked_of r created_at =
      let confidence = get_or (number_of (field_of (text "confidence") r.payload)) (literal 5 1) in
      let source_type =
        get_or (string_of (field_of (text "source_type") r.payload)) (text "system") in
      record {
        memory = record {
          id = r.id;
          content = get_or (string_of (field_of (text "text") r.payload)) [];
          embedding_model =
              get_or (string_of (field_of (text "embedding_model") r.payload)) (text "unknown");
          source_type = source_type;
          source_ref = string_of (field_of (text "source_ref") r.payload);
          provenance =
              get_or (not_null (field_of (text "provenance") r.payload))
                (object ((text "label", str (text "unknown")) ∷ []));
          tags = items_of (field_of (text "tags") r.payload);
          confidence = confidence;
          created_at = created_at;
          metadata = not_null (field_of (text "metadata") r.payload);
        };
        final_score = compute_final_score r.score confidence source_type;
      }

  unfoldable pub rank : M2SearchResult F → M W (RankedM2Result F)
  unfolding field_of ranked_of
  rank r = do
    created_at ← created (string_of (field_of (text "created_at") r.payload))
    pure (ranked_of r created_at)

  unfoldable pub rank_all : List (M2SearchResult F) → M W (List (RankedM2Result F))
  rank_all [] = pure []
  rank_all (r ∷ rs) = do ranked ← rank r; others ← rank_all rs; pure (ranked ∷ others)

  abbrev is_equal : F → F → Bool
  is_equal a b = leb a b && leb b a

  -- `new Date(..).getTime()` descending, then the ids. A difference that is NaN orders nothing.
  abbrev newer : Option ℕ → Option ℕ → (a_id b_id : Text) → Bool
  newer (some a) (some b) a_id b_id = if a == b then locale_lt a_id b_id else ltb b a
  newer _ _ a_id b_id = false

  unfoldable pub ranked_lt : RankedM2Result F → RankedM2Result F → Bool
  ranked_lt a b =
      if is_equal a.final_score b.final_score
      then newer (time_of a.memory.created_at) (time_of b.memory.created_at) a.memory.id b.memory.id
      else leb b.final_score a.final_score

  -- `max(top_k * 2, 10)` candidates are asked for.
  unfoldable pub search_semantic : Text → ℕ → List Text → M W (List (M2SemanticRecord F))
  unfolding ranked_lt sort
  search_semantic query top_k tags = do
    vector ← ask_or_throw (embed query)
    results ← ask_or_throw (search vector (max (top_k * 2) 10) (filters_of tags))
    ranked ← rank_all results
    pure (map (λ r. r.memory) (take top_k (sort ranked_lt ranked)))
