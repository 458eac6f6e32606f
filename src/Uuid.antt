-- ===== src/Uuid.antt =====
-- Name-based UUIDs (parseUuidToBytes, bytesToUuidString and uuidV5, which
-- packages/runtime/src/dag-executor.ts and apps/api/src/routes/runs.ts both define). SHA-1 and the
-- UTF-8 encoding are parameters.
pub mod RoundTrip
pub mod Version
use Prim.Native.Nat.{zero, suc}
use cognitive_runtime.Prelude.{
  ℕ, ◌+◌, ◌-◌, ◌*◌, ◌/◌, ◌%◌, ◌==◌, leb, Bool, ◌&&◌, ◌||◌, not, if◌then◌else◌, List, [], ◌∷◌, ◌++◌,
  length, every, keep, take, drop, map, none, Text, text,
}
use cognitive_runtime.Executor.Outcome.{Outcome, ok, thrown, error, ◌>>=◌}

-- `toLowerCase` on the characters that may stand in a UUID.
abbrev lower : ℕ → ℕ
lower c = if leb 65 c && leb c 90 then c + 32 else c

abbrev is_hex : ℕ → Bool
is_hex c = (leb 48 c && leb c 57) || (leb 97 c && leb c 102)

abbrev hex_value : ℕ → ℕ
hex_value c = if leb c 57 then c - 48 else c - 87

abbrev hex_char : ℕ → ℕ
hex_char d = if leb d 9 then d + 48 else d + 87

-- `Buffer.from(hex, 'hex')` on an even number of digits.
unfoldable pub from_hex : Text → List ℕ
from_hex (a ∷ b ∷ s) = (hex_value a * 16 + hex_value b) ∷ from_hex s
from_hex _ = []

-- `b.toString('hex')`
unfoldable pub to_hex : List ℕ → Text
to_hex [] = []
to_hex (b ∷ bs) = hex_char (b / 16) ∷ hex_char (b % 16) ∷ to_hex bs

-- `uuid.replace(/-/g, '').toLowerCase()`
unfoldable pub clean : Text → Text
clean uuid = map lower (keep (λ c. not (c == 45)) uuid)

unfoldable pub parse_uuid_to_bytes : Text → Outcome (List ℕ)
unfolding from_hex clean
parse_uuid_to_bytes uuid =
    if length (clean uuid) == 32 && every is_hex (clean uuid)
    then ok (from_hex (clean uuid))
    else thrown (error (text "UUID_INVALID: " ++ uuid))

unfoldable pub bytes_to_uuid_string : List ℕ → Text
unfolding to_hex
bytes_to_uuid_string b =
    let hex = to_hex b in
    take 8 hex
    ++ (text "-"
        ++ (take 4 (drop 8 hex)
            ++ (text "-"
                ++ (take 4 (drop 12 hex)
                    ++ (text "-"
                        ++ (take 4 (drop 16 hex) ++ (text "-" ++ take 12 (drop 20 hex))))))))

-- `bytes[6] = (bytes[6] & 0x0f) | 0x50` keeps the low four bits, and `bytes[8] = (bytes[8] & 0x3f)
-- | 0x80` the low six; the bits that are set are clear in what is kept, so that `|` is a sum.
unfoldable pub set_version : List ℕ → List ℕ
set_version (a ∷ b ∷ c ∷ d ∷ e ∷ f ∷ g ∷ h ∷ i ∷ s) =
    a ∷ b ∷ c ∷ d ∷ e ∷ f ∷ (g % 16 + 80) ∷ h ∷ (i % 64 + 128) ∷ s
set_version (a ∷ b ∷ c ∷ d ∷ e ∷ f ∷ g ∷ s) = a ∷ b ∷ c ∷ d ∷ e ∷ f ∷ (g % 16 + 80) ∷ s
set_version s = s

module _ (sha1 : List ℕ → List ℕ) (utf8 : Text → List ℕ) where
  unfoldable pub uuid_v5 : Text → Text → Outcome Text
  unfolding parse_uuid_to_bytes bytes_to_uuid_string set_version
  uuid_v5 namespace_uuid name = do
    ns ← parse_uuid_to_bytes namespace_uuid
    ok (bytes_to_uuid_string (set_version (take 16 (sha1 (ns ++ utf8 name)))))
