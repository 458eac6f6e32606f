-- ===== src/Uuid/RoundTrip.antt =====
-- Formatting sixteen bytes as a UUID and reading it back.
use Prim.Native.Nat.{zero, suc}
use cognitive_runtime.Prelude.{
  ℕ, ==_iff, ◌-◌, ◌+◌, ◌*◌, ◌/◌, ◌%◌, ◌≤◌, ◌<◌, ◌==◌, leb, ◌≡◌, refl, sym, ap, ◌∙◌, &&_parts, Bool,
  true, not, Bool-cases, inl, inr, List, [], ◌∷◌, ◌++◌, All, every, keep, length, take, drop, Text,
  text, arith,
}
use mathlib.Core.List.{map-append}
use cognitive_runtime.Executor.Outcome.{ok}
use cognitive_runtime.Uuid.{
  is_hex, hex_value, hex_char, lower, from_hex, to_hex, clean, parse_uuid_to_bytes,
  bytes_to_uuid_string,
}

hex_digit : (d : ℕ) → d < 16 → (is_hex (hex_char d) ≡ true) × (hex_value (hex_char d) ≡ d)
hex_digit d h = elim (Bool-cases (leb d 9)) [
  | inl low ↦ (ground arith, ground arith)
  | inr high ↦ (ground arith, ground arith)
]

to_hex-is_hex : (b : List ℕ) → All (λ x. x < 256) b → every is_hex (to_hex b) ≡ true
unfolding to_hex
to_hex-is_hex [] h = refl
to_hex-is_hex (x ∷ b) (l, h) =
    rw ((hex_digit (x / 16) (omega arith)).0, (hex_digit (x % 16) (omega arith)).0)
      (to_hex-is_hex b h)

from_hex-to_hex : (b : List ℕ) → All (λ x. x < 256) b → from_hex (to_hex b) ≡ b
unfolding to_hex from_hex
from_hex-to_hex [] h = refl
from_hex-to_hex (x ∷ b) (l, h) =
    rw
      (
        (hex_digit (x / 16) (omega arith)).1,
        (hex_digit (x % 16) (omega arith)).1,
        from_hex-to_hex b h,
      )
      (ap (λ y. y ∷ b) (omega arith))

keep-append : (p : ℕ → Bool) (s t : List ℕ) → keep p (s ++ t) ≡ keep p s ++ keep p t
keep-append p [] t = refl
keep-append p (x ∷ s) t = elim (Bool-cases (p x)) [
  | inl kept ↦ rw kept (ap (λ y. x ∷ y) (keep-append p s t))
  | inr dropped ↦ rw dropped (keep-append p s t)
]

clean-append : (s t : Text) → clean (s ++ t) ≡ clean s ++ clean t
unfolding clean
clean-append s t = rw (keep-append (λ c. not (c == 45)) s t, map-append) refl

hex_kept : (c : ℕ) → is_hex c ≡ true → (not (c == 45) ≡ true) × (lower c ≡ c)
hex_kept c h = (ground arith, ground arith)

clean-hex : (s : Text) → every is_hex s ≡ true → clean s ≡ s
unfolding clean
clean-hex [] h = refl
clean-hex (c ∷ s) h =
    let (here, rest) = &&_parts (is_hex c) (every is_hex s) h in
    rw ((hex_kept c here).0, (hex_kept c here).1) (ap (λ t. c ∷ t) (clean-hex s rest))

dashed : (t : Text) → clean (text "-" ++ t) ≡ clean t
unfolding clean
dashed t = refl

-- The dashes go, and the five groups join.
clean-groups :
    (a b c d e : Text)
    → clean (a ++ (text "-" ++ (b ++ (text "-" ++ (c ++ (text "-" ++ (d ++ (text "-" ++ e))))))))
      ≡ clean (a ++ (b ++ (c ++ (d ++ e))))
clean-groups a b c d e =
    rw
      (
        clean-append a
            (text "-" ++ (b ++ (text "-" ++ (c ++ (text "-" ++ (d ++ (text "-" ++ e))))))),
        dashed (b ++ (text "-" ++ (c ++ (text "-" ++ (d ++ (text "-" ++ e)))))),
        clean-append b (text "-" ++ (c ++ (text "-" ++ (d ++ (text "-" ++ e))))),
        dashed (c ++ (text "-" ++ (d ++ (text "-" ++ e)))),
        clean-append c (text "-" ++ (d ++ (text "-" ++ e))),
        dashed (d ++ (text "-" ++ e)),
        clean-append d (text "-" ++ e),
        dashed e,
        clean-append a (b ++ (c ++ (d ++ e))),
        clean-append b (c ++ (d ++ e)),
        clean-append c (d ++ e),
        clean-append d e,
      )
      refl

length-to_hex : (b : List ℕ) → length (to_hex b) ≡ 2 * length b
unfolding to_hex
length-to_hex [] = refl
length-to_hex (x ∷ b) = omega (arith, length-to_hex b)

take-drop : (n : ℕ) (s : Text) → take n s ++ drop n s ≡ s
take-drop zero s = refl
take-drop (suc n) [] = refl
take-drop (suc n) (x ∷ s) = ap (λ t. x ∷ t) (take-drop n s)

drop-nil : (m : ℕ) (s : Text) → s ≡ [] → drop m s ≡ []
drop-nil zero s e = e
drop-nil (suc m) [] e = refl
drop-nil (suc m) (x ∷ s) e = cc

drop-drop : (n m : ℕ) (s : Text) → drop m (drop n s) ≡ drop (n + m) s
drop-drop zero m s = ap (λ k. drop k s) (omega arith)
drop-drop (suc n) m [] = drop-nil m [] refl ∙ sym (drop-nil (suc n + m) [] refl)
drop-drop (suc n) m (x ∷ s) = drop-drop n m s ∙ ap (λ k. drop k (x ∷ s)) one_more
  where
    one_more : suc (n + m) ≡ suc n + m
    one_more = omega arith

-- The group of `m` digits behind the first `n`, and the digits behind it.
group : (n m : ℕ) (s : Text) → take m (drop n s) ++ drop (n + m) s ≡ drop n s
group n m s = rw (sym (drop-drop n m s)) (take-drop m (drop n s))

take-all : (n : ℕ) (s : Text) → length s ≤ n → take n s ≡ s
take-all zero [] h = refl
take-all zero (x ∷ s) h = absurd (omega arith)
take-all (suc n) [] h = refl
take-all (suc n) (x ∷ s) h = ap (λ t. x ∷ t) (take-all n s (omega arith))

length-drop : (n : ℕ) (s : Text) → length (drop n s) ≡ length s - n
length-drop zero s = omega arith
length-drop (suc n) [] = omega arith
length-drop (suc n) (x ∷ s) = omega (arith, length-drop n s)

groups_join :
    (h : Text)
    → length h ≤ 32
    → take 8 h
        ++ (take 4 (drop 8 h)
            ++ (take 4 (drop 12 h) ++ (take 4 (drop 16 h) ++ take 12 (drop 20 h))))
      ≡ h
groups_join h l =
    rw
      (
        take-all 12 (drop 20 h) (omega (arith, length-drop 20 h)),
        group 16 4 h,
        group 12 4 h,
        group 8 4 h,
      )
      (take-drop 8 h)

clean-uuid :
    (b : List ℕ) → All (λ x. x < 256) b → length b ≡ 16 → clean (bytes_to_uuid_string b) ≡ to_hex b
unfolding bytes_to_uuid_string
clean-uuid b bytes l =
    clean-groups _ _ _ _ _
    ∙ ap clean (groups_join (to_hex b) (omega (arith, length-to_hex b)))
    ∙ clean-hex (to_hex b) (to_hex-is_hex b bytes)

-- Sixteen bytes that are formatted as a UUID are read back as they were.
pub parse-bytes_to_uuid_string :
    (b : List ℕ)
    → All (λ x. x < 256) b
    → length b ≡ 16
    → parse_uuid_to_bytes (bytes_to_uuid_string b) ≡ ok b
unfolding parse_uuid_to_bytes
parse-bytes_to_uuid_string b bytes l =
    rw
      (
        clean-uuid b bytes l,
        (==_iff (length (to_hex b)) 32).1 (omega (arith, length-to_hex b)),
        to_hex-is_hex b bytes,
        from_hex-to_hex b bytes,
      )
      refl
