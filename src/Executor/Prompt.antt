-- ===== src/Executor/Prompt.antt =====
-- The prompt and the call of the language model: normalizePreamble, formatRoleLine,
-- buildPromptFromDb, isTimeoutError, llamaCompletion, truncateString.
use Prim.Native.Nat.{min, max}
use cognitive_runtime.Prelude.{
  ℕ, ◌==◌, leb, Bool, true, false, ◌&&◌, ◌||◌, if◌then◌else◌, Option, none, some, List, [], ◌∷◌,
  ◌++◌, last, length, take, Text, text, text_eq,
}
use mathlib.Core.List.{reverse}
use cognitive_runtime.Executor.Outcome.{Thrown, error}
use cognitive_runtime.Executor.Effects.{
  Role, user, assistant, system, Message, Fetched, failed_fetch, response, Services, M, ◌>>=◌, pure,
  throw, ask, ask_or_throw,
}

-- `clampInt(n, min, max)` on whole numbers.
abbrev pub clamp_int : ℕ → ℕ → ℕ → ℕ
clamp_int n lo hi = max lo (min hi n)

-- The white space that `trim` removes.
abbrev pub is_space : ℕ → Bool
is_space c =
    (leb 9 c && leb c 13)
    || (c == 32)
    || (c == 160)
    || (c == 0x1680)
    || (leb 0x2000 c && leb c 0x200a)
    || (c == 0x2028)
    || (c == 0x2029)
    || (c == 0x202f)
    || (c == 0x205f)
    || (c == 0x3000)
    || (c == 0xfeff)

unfoldable pub trim_start : Text → Text
trim_start [] = []
trim_start (c ∷ s) = let rest = trim_start s in if is_space c then rest else c ∷ s

unfoldable pub trim : Text → Text
unfolding trim_start
trim s = reverse (trim_start (reverse (trim_start s)))

abbrev newline : Text
newline = 10 ∷ []

abbrev line_unless_empty : Text → Text
line_unless_empty [] = []
line_unless_empty (c ∷ s) = (c ∷ s) ++ newline

unfoldable pub normalize_preamble : Text → Text
unfolding trim
normalize_preamble p = line_unless_empty (trim p)

unfoldable pub format_role_line : Role → Text → Text
format_role_line user content = text "User: " ++ (content ++ newline)
format_role_line assistant content = text "Assistant: " ++ (content ++ newline)
format_role_line system content = text "System: " ++ (content ++ newline)

unfoldable pub format_all : List Message → Text
unfolding format_role_line
format_all [] = []
format_all (m ∷ ms) = format_role_line m.role m.content ++ format_all ms

abbrev is_current_user : Role → Text → Text → Bool
is_current_user user content current = text_eq content current
is_current_user _ content current = false

abbrev last_is_current_user : Option Message → Text → Bool
last_is_current_user none current = false
last_is_current_user (some m) current = is_current_user m.role m.content current

-- The pure part of buildPromptFromDb, after the history is loaded newest first.
unfoldable pub prompt_of : (preamble current : Text) → List Message → Text
unfolding normalize_preamble format_all format_role_line
prompt_of preamble current recent_desc =
    let chron = reverse recent_desc in
    normalize_preamble preamble
    ++ (format_all chron
        ++ ((if last_is_current_user (last chron) current
              then []
              else format_role_line user current)
            ++ text "Assistant:"))

unfoldable pub history_limit : ℕ → ℕ
history_limit n = clamp_int (if n == 0 then 6 else n) 2 20

unfoldable pub truncate_string : Text → ℕ → Text
truncate_string s max_chars = if leb (length s) max_chars then s else take max_chars s

abbrev pub is_some_text : Option Text → Text → Bool
is_some_text none t = false
is_some_text (some s) t = text_eq s t

unfoldable pub is_timeout_error : Thrown → Bool
is_timeout_error e =
    is_some_text e.name (text "TimeoutError")
    || is_some_text e.code (text "UND_ERR_CONNECT_TIMEOUT")

module _ {W : Type 0} (services : Services W) where
  open services use {list_recent, fetch}

  unfoldable pub build_prompt_from_db :
      (chat_id : Text) (limit : ℕ) (preamble current : Text) → M W Text
  unfolding history_limit prompt_of
  build_prompt_from_db chat_id limit preamble current = do
    recent_desc ← ask_or_throw (list_recent chat_id (history_limit limit))
    pure (prompt_of preamble current recent_desc)

  -- The catch block: an abort or a timeout becomes the error with code LLAMA_TIMEOUT.
  unfoldable pub rethrow : Thrown → M W Text
  unfolding is_timeout_error
  rethrow e =
      if is_some_text e.name (text "AbortError") || is_timeout_error e
      then throw (record {
        name = none;
        code = some (text "LLAMA_TIMEOUT");
        message = text "llama completion timed out after 60000ms";
      })
      else throw e

  unfoldable pub completion_of : Fetched → M W Text
  unfolding trim
  completion_of (failed_fetch e) = rethrow e
  completion_of (response false status status_text content) =
      rethrow (error (text "llama-server returned " ++ (status ++ (text ": " ++ status_text))))
  completion_of (response true status status_text (some (c ∷ s))) = pure (trim (c ∷ s))
  completion_of (response true status status_text _) =
      rethrow (error (text "No content in llama-server response"))

  -- With the executor's `timeoutMs` 60000; the time-out and the body's parse are `fetch`'s.
  unfoldable pub llama_completion : (url prompt : Text) → M W Text
  llama_completion url prompt = do answer ← ask (fetch url prompt); completion_of answer
