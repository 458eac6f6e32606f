-- ===== src/Executor/Reply/Forced.antt =====
-- What enforceReplyConstraints may answer.
use cognitive_runtime.Prelude.{
  ℕ, ◌+◌, ◌-◌, ◌≤◌, leb, leb→le, ◌≡◌, ◌≢◌, refl, sym, ap, ◌∙◌, Bool, true, false, ◌&&◌, &&_parts,
  Bool-cases, ◌⊎◌, inl, inr, Option, none, some, get_or, List, [], ◌∷◌, ◌++◌, append-nil, length,
  length-append, drop, Text, text, text_eq_refl, arith,
}
use cognitive_runtime.Executor.Effects.{
  ReplyPattern, Captures, reply_or_respond_with, output_return_say_exactly, output_return_say_colon,
  always_ok,
}
use cognitive_runtime.Executor.Prompt.{trim}
use cognitive_runtime.Executor.Reply.{
  ReplyConstraintMatch, capture_value, ends_with, punctuate, apply_punct, forced, not_forced,
  value_block, ok_block, enforce_reply_constraints,
}

-- What a rule makes of its captures, and the name that it reports.
abbrev pub value_of : ReplyPattern → Captures → Text
unfolding capture_value
value_of always_ok m = text "OK"
value_of _ m = capture_value m

abbrev pub name_of : ReplyPattern → Text
name_of reply_or_respond_with = text "reply_or_respond_with"
name_of output_return_say_exactly = text "output_return_say_exactly"
name_of output_return_say_colon = text "output_return_say_colon"
name_of always_ok = text "always_ok"

-- The rule matches, with a value of 1 to 500 characters.
abbrev pub applies : ReplyPattern → Option Captures → Bool
applies rule none = false
applies rule (some m) = leb 1 (length (value_of rule m)) && leb (length (value_of rule m)) 500

-- The first capture that is not empty, of the double, the single and no quotes, trimmed.
abbrev pub IsCaptured : Captures → Text → Type 0
IsCaptured m value =
    ((get_or m.dq [] ≢ []) × (value ≡ trim (get_or m.dq [])))
    ⊎ ((get_or m.dq [] ≡ []) × (get_or m.sq [] ≢ []) × (value ≡ trim (get_or m.sq [])))
    ⊎ ((get_or m.dq [] ≡ []) × (get_or m.sq [] ≡ []) × (value ≡ trim (get_or m.uq [])))

abbrev pub IsValue : ReplyPattern → Captures → Text → Type 0
IsValue always_ok m value = value ≡ text "OK"
IsValue _ m value = IsCaptured m value

-- The value, with the punctuation behind it unless it ends with that.
abbrev pub IsPunctuated : (value punct final : Text) → Type 0
IsPunctuated value punct final =
    ((ends_with value punct ≡ true) × (final ≡ value))
    ⊎ ((ends_with value punct ≡ false) × (final ≡ value ++ punct))

-- The reply that a rule forces with its captures of the instruction.
pub record IsForced (rule : ReplyPattern) (m : Captures) (r : ReplyConstraintMatch) : Type 0 where
  pub final : Text
  pub reply : r ≡ forced (name_of rule) final
  pub punctuated : IsPunctuated (value_of rule m) (trim (get_or m.punct [])) final
  pub value : IsValue rule m (value_of rule m)
  pub low : 1 ≤ length (value_of rule m)
  pub high : length (value_of rule m) ≤ 500

-- The first rule of the list that applies forces the reply, and if none does it is the raw one.
abbrev pub IsReply :
    (ReplyPattern → Option Captures) → Text → List ReplyPattern → ReplyConstraintMatch → Type 0
IsReply found raw [] r = r ≡ not_forced raw
IsReply found raw (rule ∷ rules) r =
    ((m : Captures) × (found rule ≡ some m) × IsForced rule m r)
    ⊎ ((applies rule (found rule) ≡ false) × IsReply found raw rules r)

abbrev pub all_rules : List ReplyPattern
all_rules =
    reply_or_respond_with ∷ output_return_say_exactly ∷ output_return_say_colon ∷ always_ok ∷ []

drop-append : (s t : Text) → drop (length s) (s ++ t) ≡ t
drop-append [] t = refl
drop-append (c ∷ s) t = drop-append s t

ends_with-append : (s p : Text) → ends_with (s ++ p) p ≡ true
unfolding ends_with
ends_with-append s p =
    rw (length-append s p, plus_minus, drop-append s p, text_eq_refl p) (ground arith)
  where
    plus_minus : length s + length p - length p ≡ length s
    plus_minus = omega arith

ends_with_nil : (s : Text) → ends_with s [] ≡ true
ends_with_nil s = ap (λ t. ends_with t []) (sym (append-nil s)) ∙ ends_with-append s []

punctuate-IsPunctuated : (value p : Text) → IsPunctuated value p (punctuate value p)
punctuate-IsPunctuated value [] = inl (ends_with_nil value, refl)
punctuate-IsPunctuated value (c ∷ p) = elim (Bool-cases (ends_with value (c ∷ p))) [
  | inl there ↦ rw there (inl (refl, refl))
  | inr missing ↦ rw missing (inr (refl, refl))
]

capture_value-IsCaptured : (m : Captures) → IsCaptured m (capture_value m)
unfolding capture_value
capture_value-IsCaptured m = go (get_or m.dq []) (get_or m.sq []) refl refl
  where
    no_cons : (c : ℕ) (t : Text) → c ∷ t ≢ []
    no_cons c t e = cc

    go : (d s : Text) → get_or m.dq [] ≡ d → get_or m.sq [] ≡ s → IsCaptured m (capture_value m)
    go (c ∷ d) s hd hs = rw hd (inl (no_cons c d, refl))
    go [] (c ∷ s) hd hs = rw (hd, hs) (inr (inl (refl, no_cons c s, refl)))
    go [] [] hd hs = rw (hd, hs) (inr (inr (refl, refl, refl)))

value_of-IsValue : (rule : ReplyPattern) (m : Captures) → IsValue rule m (value_of rule m)
unfolding value_of capture_value
value_of-IsValue always_ok m = refl
value_of-IsValue reply_or_respond_with m = capture_value-IsCaptured m
value_of-IsValue output_return_say_exactly m = capture_value-IsCaptured m
value_of-IsValue output_return_say_colon m = capture_value-IsCaptured m

forced-IsForced :
    (rule : ReplyPattern) (m : Captures)
    → applies rule (some m) ≡ true
    → IsForced rule m (forced (name_of rule) (apply_punct (value_of rule m) m.punct))
unfolding apply_punct
forced-IsForced rule m fits =
    let (low, high) = &&_parts (leb 1 (length (value_of rule m))) _ fits in
    record {
      final = punctuate (value_of rule m) (trim (get_or m.punct []));
      reply = refl;
      punctuated = punctuate-IsPunctuated (value_of rule m) (trim (get_or m.punct []));
      value = value_of-IsValue rule m;
      low = leb→le _ _ low;
      high = leb→le _ _ high;
    }

-- A block for a rule: its code is that of `value_block`, whose value and name are the rule's.
value_block-IsReply :
    (found : ReplyPattern → Option Captures) (raw : Text) (rule : ReplyPattern)
    (rules : List ReplyPattern) (rest : ReplyConstraintMatch)
    → ((m : Captures) → value_of rule m ≡ capture_value m)
    → IsReply found raw rules rest
    → IsReply found raw (rule ∷ rules) (value_block (name_of rule) (found rule) rest)
unfolding value_block
value_block-IsReply found raw rule rules rest same h = go (found rule) refl
  where
    go :
        (o : Option Captures)
        → found rule ≡ o
        → IsReply found raw (rule ∷ rules) (value_block (name_of rule) (found rule) rest)
    go none e = inr (rw e refl, rw e h)
    go (some m) e = elim (Bool-cases (applies rule (some m))) [
      | inl fits ↦ inl (m, e, rw (e, sym (same m)) (rw fits (forced-IsForced rule m fits)))
      | inr unfit ↦ inr (rw e unfit, rw (e, sym (same m)) (rw unfit h))
    ]

ok_block-IsReply :
    (found : ReplyPattern → Option Captures) (raw : Text)
    → IsReply found raw (always_ok ∷ []) (ok_block (found always_ok) (not_forced raw))
unfolding ok_block value_of
ok_block-IsReply found raw = go (found always_ok) refl
  where
    go :
        (o : Option Captures)
        → found always_ok ≡ o
        → IsReply found raw (always_ok ∷ []) (ok_block (found always_ok) (not_forced raw))
    go none e = inr (rw e refl, rw e refl)
    go (some m) e = inl (m, e, rw e (forced-IsForced always_ok m refl))

-- Whatever the patterns match: the first of the four rules that matches the trimmed instruction
-- with a value of 1 to 500 characters forces the reply. The value is the first of the quotes'
-- captures that is not empty, trimmed, or OK, and the captured punctuation stands behind it unless
-- the value ends with that. If no rule applies, the reply is the model's own text, not forced.
pub enforce_reply_constraints-IsReply :
    (match : ReplyPattern → Text → Option Captures) (instruction raw : Text)
    → IsReply
        (λ rule. match rule (trim instruction))
        raw
        all_rules
        (enforce_reply_constraints match instruction raw)
unfolding enforce_reply_constraints
enforce_reply_constraints-IsReply match instruction raw =
    value_block-IsReply found raw reply_or_respond_with
      (output_return_say_exactly ∷ output_return_say_colon ∷ always_ok ∷ []) exactly (λ m. refl)
      (value_block-IsReply found raw output_return_say_exactly
        (output_return_say_colon ∷ always_ok ∷ []) colon (λ m. refl)
        (value_block-IsReply found raw output_return_say_colon (always_ok ∷ []) last_block
          (λ m. refl) (ok_block-IsReply found raw)))
  where
    found : ReplyPattern → Option Captures
    found rule = match rule (trim instruction)

    last_block : ReplyConstraintMatch
    last_block = ok_block (found always_ok) (not_forced raw)

    colon : ReplyConstraintMatch
    colon = value_block (name_of output_return_say_colon) (found output_return_say_colon) last_block

    exactly : ReplyConstraintMatch
    exactly =
        value_block (name_of output_return_say_exactly) (found output_return_say_exactly) colon
