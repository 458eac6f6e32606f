-- ===== src/Samples/Semantic.antt =====
-- The theorems on the semantic memory, at a database that holds two points.
use cognitive_runtime.Prelude.{
  ℕ, ◌+◌, ◌≡◌, refl, Option, none, some, List, [], ◌∷◌, Text, text, text_lt, arith,
}
use cognitive_runtime.Contracts.Json.{Json, num, str, nil, object, fields}
use cognitive_runtime.Contracts.Numbers.{Numbers}
use cognitive_runtime.Executor.Outcome.{ok}
use cognitive_runtime.Executor.Returns.{Returns}
use cognitive_runtime.Samples.Reward
use cognitive_runtime.Samples.Worker.{state_at}
use cognitive_runtime.Memory.Semantic.{
  M2SemanticRecord, M2SearchResult, Semantic, payload_of, rank, compute_final_score,
  search_semantic,
}
use cognitive_runtime.Memory.Payload.{rank-payload_of}
use cognitive_runtime.Memory.Ranking.{IsTotal, IsRanking, search_semantic-ranks}

abbrev read_number : Option Json → Option ℕ
read_number (some (num n)) = some n
read_number _ = none

abbrev numbers : Numbers ℕ
numbers = record Reward.numbers { number_of = read_number }

numbers-IsTotal : IsTotal numbers
numbers-IsTotal = record { total = λ a b p q h. ground arith; trans = λ a b c h k. ground arith }

abbrev point : Text → ℕ → M2SearchResult ℕ
point id score = record {
  id = id;
  score = score;
  payload = fields ((text "text", str (text "note")) ∷ []);
}

abbrev points : List (M2SearchResult ℕ)
points = point (text "a") 1 ∷ point (text "b") 2 ∷ []

abbrev pub semantic : Semantic ℕ ℕ (Unit {0})
semantic = record {
  numbers = numbers;
  embed = λ t w. (ok tt, w);
  upsert = λ id v p w. (ok tt, w);
  search = λ v n filters w. (ok points, w);
  iso_now = λ w. (text "now", w + 1);
  time_of = λ t. some 0;
  locale_lt = text_lt;
}

search_semantic-ranks_example :
    Returns
      (λ records _. IsRanking semantic points 1 records)
      (search_semantic semantic (text "q") 1 [] (state_at 0))
search_semantic-ranks_example =
    search_semantic-ranks semantic points numbers-IsTotal (λ r at found. refl) (text "q") 1 []
      (state_at 0) tt refl refl

abbrev note : M2SemanticRecord ℕ
note = record {
  id = text "a";
  content = text "note";
  embedding_model = text "model";
  source_type = text "run_event";
  source_ref = none;
  provenance = object ((text "label", str (text "run")) ∷ []);
  tags = nil;
  confidence = 3;
  created_at = text "t";
  metadata = none;
}

rank-payload_of_example :
    rank semantic
      (record { id = note.id; score = 2; payload = payload_of semantic note })
      (state_at 0)
    ≡ (
      ok (record {
        memory = note;
        final_score = compute_final_score semantic 2 note.confidence note.source_type;
      }),
      state_at 0,
    )
rank-payload_of_example =
    rank-payload_of semantic note (record { provenance = refl; metadata = refl; confidence = refl })
      2 (state_at 0)
