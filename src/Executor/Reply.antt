-- ===== src/Executor/Reply.antt =====
-- enforceReplyConstraints. The regular expressions are the parameter `match`, which answers what
-- `String.prototype.match` captures in the trimmed instruction.
pub mod Forced
use cognitive_runtime.Prelude.{
  ℕ, ◌-◌, leb, Bool, true, false, ◌&&◌, if◌then◌else◌, Option, none, some, get_or, [], ◌∷◌, ◌++◌,
  drop, length, Text, text, text_eq,
}
use cognitive_runtime.Executor.Effects.{
  ReplyPattern, reply_or_respond_with, output_return_say_exactly, output_return_say_colon,
  always_ok, Captures,
}
use cognitive_runtime.Executor.Prompt.{trim}

pub record ReplyConstraintMatch : Type 0 where
  pub forced_reply : Bool
  pub forced_reply_value : Option Text
  pub matched_pattern : Option Text
  pub final_assistant_text : Text

-- `a || b` on strings.
abbrev or_text : Text → Text → Text
or_text [] t = t
or_text (c ∷ s) t = c ∷ s

unfoldable pub capture_value : Captures → Text
unfolding trim
capture_value m = trim (or_text (or_text (get_or m.dq []) (get_or m.sq [])) (get_or m.uq []))

-- `s.endsWith(p)`
unfoldable pub ends_with : Text → Text → Bool
ends_with s p = leb (length p) (length s) && text_eq (drop (length s - length p) s) p

abbrev punctuate : Text → Text → Text
punctuate value [] = value
punctuate value (c ∷ p) = if ends_with value (c ∷ p) then value else value ++ c ∷ p

unfoldable pub apply_punct : Text → Option Text → Text
unfolding trim ends_with
apply_punct value punct = punctuate value (trim (get_or punct []))

abbrev pub max_forced_reply_len : ℕ
max_forced_reply_len = 500

abbrev pub forced : Text → Text → ReplyConstraintMatch
forced pattern final = record {
  forced_reply = true;
  forced_reply_value = some final;
  matched_pattern = some pattern;
  final_assistant_text = final;
}

abbrev pub not_forced : Text → ReplyConstraintMatch
not_forced raw = record {
  forced_reply = false;
  forced_reply_value = none;
  matched_pattern = none;
  final_assistant_text = raw;
}

-- One block of the function: it returns, or falls through to `rest`.
unfoldable pub value_block : Text → Option Captures → ReplyConstraintMatch → ReplyConstraintMatch
unfolding capture_value apply_punct
value_block pattern none rest = rest
value_block pattern (some m) rest =
    let value = capture_value m in
    if leb 1 (length value) && leb (length value) max_forced_reply_len
    then forced pattern (apply_punct value m.punct)
    else rest

unfoldable pub ok_block : Option Captures → ReplyConstraintMatch → ReplyConstraintMatch
unfolding apply_punct
ok_block none rest = rest
ok_block (some m) rest = forced (text "always_ok") (apply_punct (text "OK") m.punct)

module _ (match : ReplyPattern → Text → Option Captures) where
  unfoldable pub enforce_reply_constraints : (user_instruction raw : Text) → ReplyConstraintMatch
  unfolding value_block ok_block trim
  enforce_reply_constraints user_instruction raw =
      let msg = trim user_instruction in
      value_block (text "reply_or_respond_with") (match reply_or_respond_with msg) (
        value_block (text "output_return_say_exactly") (match output_return_say_exactly msg) (
          value_block (text "output_return_say_colon") (match output_return_say_colon msg)
            (ok_block (match always_ok msg) (not_forced raw))))
