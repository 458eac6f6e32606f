-- ===== src/Memory/Payload.antt =====
-- What the search reads of a point is what the write has stored in it.
use cognitive_runtime.Prelude.{◌≡◌, refl, Option, none, some, Text, text_eq}
use cognitive_runtime.Contracts.Json.{Json, field_of}
use cognitive_runtime.Executor.Outcome.{ok}
use cognitive_runtime.Executor.Effects.{State, and_then}
use cognitive_runtime.Memory.Semantic.{
  M2SemanticRecord, Semantic, not_null, ref_json, string_of, or_null, payload_of, ranked_of, rank,
  compute_final_score,
}

-- The schema's objects are not null, and a number that is written is read again.
pub record IsStorable {W F Vector : Type 0} (services : Semantic W F Vector)
    (r : M2SemanticRecord F) : Type 0 where
  pub provenance : not_null (some r.provenance) ≡ some r.provenance
  pub metadata : not_null r.metadata ≡ r.metadata
  pub confidence :
      services.numbers.number_of (some (services.numbers.json_of r.confidence)) ≡ some r.confidence

ref_again : (ref : Option Text) → string_of (some (ref_json ref)) ≡ ref
ref_again none = refl
ref_again (some t) = refl

or_again : (v : Option Json) → not_null v ≡ v → not_null (some (or_null v)) ≡ v
or_again none h = refl
or_again (some v) h = h

module _ {W F Vector : Type 0} (services : Semantic W F Vector) (r : M2SemanticRecord F)
    (storable : IsStorable services r) where
  -- If provenance and metadata are not null and the confidence is read as it was written, a point
  -- with the payload that is written for a record is ranked as that record, with its final score,
  -- and the clock is not read.
  pub rank-payload_of :
      (score : F) (s : State W)
      → rank services (record { id = r.id; score = score; payload = payload_of services r }) s ≡ (
        ok (record {
          memory = r;
          final_score = compute_final_score services score r.confidence r.source_type;
        }),
        s,
      )
  unfolding rank ranked_of payload_of field_of and_then text_eq
  rank-payload_of score s =
      rw
        (
          storable.provenance,
          storable.confidence,
          ref_again r.source_ref,
          or_again r.metadata storable.metadata,
        )
        refl
