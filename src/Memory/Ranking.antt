-- ===== src/Memory/Ranking.antt =====
-- The order of the records that the semantic search returns.
use cognitive_runtime.Prelude.{
  ℕ, max, ◌*◌, ◌≤◌, ◌≡◌, refl, Bool, true, false, ◌&&◌, if◌then◌else◌, inl, inr, Option, none, some,
  List, [], ◌∷◌, map, take, length, All, In, Text, text,
}
use cognitive_runtime.Prelude.Sorting.{sort}
use cognitive_runtime.Prelude.Sorted.{
  IsSorted, take-IsSorted, All-take, Decides, length-take, sort-IsSorted, sort-All,
}
use cognitive_runtime.Contracts.Json.{field_of}
use cognitive_runtime.Contracts.Numbers.{Numbers}
use cognitive_runtime.Executor.Outcome.{ok}
use cognitive_runtime.Executor.Effects.{State, and_then, ask, ask_or_throw}
use cognitive_runtime.Executor.Returns.{Returns, pure-Returns, and_then-Returns}
use cognitive_runtime.Memory.Semantic.{
  M2SemanticRecord, M2SearchResult, RankedM2Result, Semantic, created, string_of, ranked_of, rank,
  rank_all, ranked_lt, filters_of, search_semantic,
}

-- `<=` on the numbers other than NaN.
pub record IsTotal {F : Type 0} (numbers : Numbers F) : Type 0 where
  pub total :
      (a b : F)
      → numbers.is_nan a ≡ false
      → numbers.is_nan b ≡ false
      → numbers.leb a b ≡ false
      → numbers.leb b a ≡ true
  pub trans : (a b c : F) → numbers.leb a b ≡ true → numbers.leb b c ≡ true → numbers.leb a c ≡ true

-- The comparison of two scores, with `tie` where they are equal.
tested_true : (a b tie : Bool) → (if a && b then tie else b) ≡ true → b ≡ true
tested_true a true tie h = refl
tested_true true false tie h = h
tested_true false false tie h = h

tested_false :
    (a b tie : Bool) → (if a && b then tie else b) ≡ false → (a ≡ false → b ≡ true) → a ≡ true
tested_false true b tie h total = refl
tested_false false true tie h total = cc
tested_false false false tie h total = cc (total refl)

module _ {W F Vector : Type 0} (services : Semantic W F Vector)
    (results : List (M2SearchResult F)) where
  open services use {numbers}

  -- Read from one of the results.
  abbrev pub IsRead : RankedM2Result F → Type 0
  IsRead r =
      (result : M2SearchResult F) × (at : Text) × In result results
      × (r ≡ ranked_of services result at)

  abbrev pub IsAbove : RankedM2Result F → RankedM2Result F → Type 0
  IsAbove a b = numbers.leb b.final_score a.final_score ≡ true

  -- The records are those of at most `top_k` ranked results, by descending final score.
  pub record IsRanking (top_k : ℕ) (records : List (M2SemanticRecord F)) : Type 0 where
    pub ranked : List (RankedM2Result F)
    pub memories : records ≡ map (λ r. r.memory) ranked
    pub bound : length ranked ≤ top_k
    pub sorted : IsSorted IsAbove ranked
    pub read : All IsRead ranked

  rank-Returns :
      (r : M2SearchResult F) (s : State W)
      → In r results
      → Returns (λ ranked _. IsRead ranked) (rank services r s)
  unfolding rank ask
  rank-Returns r s found =
      and_then-Returns (λ _ _. Unit {0}) _
        (created-Returns (string_of (field_of (text "created_at") r.payload)))
        (λ at t _. pure-Returns _ _ t (r, at, found, refl))
    where
      created-Returns : (at : Option Text) → Returns (λ _ _. Unit {0}) (created services at s)
      created-Returns (some at) = pure-Returns _ at s tt
      created-Returns none = pure-Returns _ _ _ tt

  rank_all-Returns :
      (rs : List (M2SearchResult F)) (s : State W)
      → ((r : M2SearchResult F) → In r rs → In r results)
      → Returns (λ ranked _. All IsRead ranked) (rank_all services rs s)
  unfolding rank_all
  rank_all-Returns [] s sub = pure-Returns _ [] s tt
  rank_all-Returns (r ∷ rs) s sub =
      and_then-Returns (λ ranked _. IsRead ranked) _ (rank-Returns r s (sub r (inl refl)))
        λ ranked t h.
          and_then-Returns (λ others _. All IsRead others) _
            (rank_all-Returns rs t (λ x found. sub x (inr found)))
            (λ others u hs. pure-Returns _ (ranked ∷ others) u (h, hs))

  module _ (total : IsTotal numbers)
      (real : (r : M2SearchResult F) (at : Text)
        → In r results
        → numbers.is_nan (ranked_of services r at).final_score ≡ false) where
    read-real : (r : RankedM2Result F) → IsRead r → numbers.is_nan r.final_score ≡ false
    read-real r (result, at, found, eq) = rw eq (real result at found)

    ranked_lt-Decides : Decides (ranked_lt services) IsRead IsAbove
    unfolding ranked_lt
    ranked_lt-Decides = record {
      above = λ x y px py h. tested_true _ _ _ h;
      below = λ x y px py h.
          tested_false _ _ _ h
            (total.total x.final_score y.final_score (read-real x px) (read-real y py));
      trans = λ x y z px py pz h k. total.trans z.final_score y.final_score x.final_score k h;
    }

    ranking :
        (top_k : ℕ) (ranked : List (RankedM2Result F))
        → All IsRead ranked
        → IsRanking top_k (map (λ r. r.memory) (take top_k (sort (ranked_lt services) ranked)))
    ranking top_k ranked h = record {
      ranked = take top_k (sort (ranked_lt services) ranked);
      memories = refl;
      bound = length-take top_k (sort (ranked_lt services) ranked);
      sorted =
          take-IsSorted IsAbove top_k (sort (ranked_lt services) ranked)
            (sort-IsSorted ranked_lt-Decides ranked h);
      read =
          All-take IsRead top_k (sort (ranked_lt services) ranked)
            (sort-All ranked_lt-Decides ranked h);
    }

    -- If the embedding and the database answer, scores are ordered and the final score of no result
    -- is NaN, the search returns at most `top_k` records, each read from one of the results, by
    -- descending final score.
    pub search_semantic-ranks :
        (query : Text) (top_k : ℕ) (tags : List Text) (s : State W) (vector : Vector)
        → (services.embed query s.world).0 ≡ ok vector
        → (services.search vector
            (max (top_k * 2) 10)
            (filters_of tags)
            (services.embed query s.world).1).0
          ≡ ok results
        → Returns
            (λ records _. IsRanking top_k records)
            (search_semantic services query top_k tags s)
    unfolding search_semantic ask_or_throw and_then
    search_semantic-ranks query top_k tags s vector embedded searched = rw embedded (
        rw searched (
          and_then-Returns (λ ranked _. All IsRead ranked) _
            (rank_all-Returns results _ (λ r found. found))
            (λ ranked t h. pure-Returns _ _ t (ranking top_k ranked h))))
