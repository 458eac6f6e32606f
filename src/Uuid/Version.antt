-- ===== src/Uuid/Version.antt =====
-- uuidV5 gives a UUID of version 5.
use Prim.Native.Nat.{zero, suc}
use cognitive_runtime.Prelude.{
  ℕ, ◌/◌, ◌≤◌, ◌<◌, ◌≡◌, refl, List, [], ◌∷◌, ◌++◌, All, length, take, drop, Text, arith,
}
use cognitive_runtime.Executor.Outcome.{ok}
use cognitive_runtime.Uuid.{parse_uuid_to_bytes, bytes_to_uuid_string, set_version, uuid_v5}
use cognitive_runtime.Uuid.RoundTrip.{parse-bytes_to_uuid_string}

-- Bytes of a hash: at least sixteen, each below 256.
pub record IsDigest (b : List ℕ) : Type 0 where
  pub long : 16 ≤ length b
  pub bytes : All (λ x. x < 256) b

-- Sixteen bytes of version 5 and of the variant of RFC 4122.
pub record IsVersion5 (b : List ℕ) : Type 0 where
  pub sixteen : length b ≡ 16
  pub bytes : All (λ x. x < 256) b
  pub version : All (λ x. x / 16 ≡ 5) (take 1 (drop 6 b))
  pub variant : All (λ x. x / 64 ≡ 2) (take 1 (drop 8 b))

take-IsDigest :
    (n : ℕ) (b : List ℕ)
    → n ≤ length b
    → All (λ x. x < 256) b
    → (length (take n b) ≡ n) × All (λ x. x < 256) (take n b)
take-IsDigest zero b l h = (refl, tt)
take-IsDigest (suc n) [] l h = absurd (omega arith)
take-IsDigest (suc n) (x ∷ b) l (here, rest) =
    let (e, a) = take-IsDigest n b (omega arith) rest in (omega arith, (here, a))

set_version-IsVersion5 :
    (b : List ℕ) → length b ≡ 16 → All (λ x. x < 256) b → IsVersion5 (set_version b)
unfolding set_version
set_version-IsVersion5 (a ∷ b ∷ c ∷ d ∷ e ∷ f ∷ g ∷ h ∷ i ∷ s) l
      (ha, (hb, (hc, (hd, (he, (hf, (hg, (hh, (hi, hs))))))))) =
    record {
      sixteen = omega arith;
      bytes = (ha, (hb, (hc, (hd, (he, (hf, (omega arith, (hh, (omega arith, hs)))))))));
      version = (omega arith, tt);
      variant = (omega arith, tt);
    }
set_version-IsVersion5 _ l h = absurd (omega arith)

-- The bytes that uuidV5 formats.
abbrev pub named_bytes : (sha1 : List ℕ → List ℕ) (utf8 : Text → List ℕ) → List ℕ → Text → List ℕ
unfolding set_version
named_bytes sha1 utf8 ns name = set_version (take 16 (sha1 (ns ++ utf8 name)))

-- If the hash gives at least sixteen bytes, then uuidV5 of a namespace that can be read gives a
-- string that is read back as the bytes of its hash, with the version 5 and the variant set.
pub uuid_v5-IsVersion5 :
    (sha1 : List ℕ → List ℕ) (utf8 : Text → List ℕ) (namespace name : Text) (ns : List ℕ)
    → ((b : List ℕ) → IsDigest (sha1 b))
    → parse_uuid_to_bytes namespace ≡ ok ns
    → (uuid : Text) × (uuid_v5 sha1 utf8 namespace name ≡ ok uuid)
      × (parse_uuid_to_bytes uuid ≡ ok (named_bytes sha1 utf8 ns name))
      × IsVersion5 (named_bytes sha1 utf8 ns name)
unfolding uuid_v5 named_bytes
uuid_v5-IsVersion5 sha1 utf8 namespace name ns digest read = (
  bytes_to_uuid_string (named_bytes sha1 utf8 ns name),
  rw read refl,
  parse-bytes_to_uuid_string _ versioned.bytes versioned.sixteen,
  versioned,
)
  where
    versioned : IsVersion5 (named_bytes sha1 utf8 ns name)
    versioned =
        let d = digest (ns ++ utf8 name) in
        let (l, a) = take-IsDigest 16 (sha1 (ns ++ utf8 name)) d.long d.bytes in
        set_version-IsVersion5 (take 16 (sha1 (ns ++ utf8 name))) l a
