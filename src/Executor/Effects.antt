-- ===== src/Executor/Effects.antt =====
-- What the executor asks of the code outside of it, and the state that it threads.
use cognitive_runtime.Prelude.{
  ℕ, Bool, Option, none, some, List, [], ◌∷◌, ◌++◌, keep, Text, text_eq,
}
use cognitive_runtime.Contracts.Json.{Json}
use cognitive_runtime.Contracts.Dag.{DagSpec}
use cognitive_runtime.Contracts.EventTypes.{RunEventType}
use cognitive_runtime.Contracts.Events.{RunEvent, EventData, create_run_event}
use cognitive_runtime.Executor.Outcome.{Outcome, ok, thrown, Thrown}

pub data Role : Type 0 where
  user assistant system : Role

pub record Message : Type 0 where
  pub role : Role
  pub content : Text

pub record NewMessage : Type 0 where
  pub id : Text
  pub chat_id : Text
  pub role : Role
  pub content : Text

-- What `fetch` answers: an exception, or a response with its parsed body's `content`.
pub data Fetched : Type 0 where
  failed_fetch : Thrown → Fetched
  response : (ok : Bool) (status status_text : Text) (content : Option Text) → Fetched

-- The patterns of enforceReplyConstraints, and what a match captures.
pub data ReplyPattern : Type 0 where
  reply_or_respond_with output_return_say_exactly output_return_say_colon always_ok : ReplyPattern

pub record Captures : Type 0 where
  pub dq : Option Text
  pub sq : Option Text
  pub uq : Option Text
  pub punct : Option Text

-- The database, the network, the clock, zod, node's crypto and the regular expressions. `W` is the
-- state of the world that they share. `rejects` says whether the store refuses an event, because
-- of its schema or of the database.
pub record Services (W : Type 0) : Type 0 where
  pub is_uuid : Text → Bool
  pub is_datetime : Text → Bool
  pub zod_issues : DagSpec → Json
  pub rejects : RunEvent → W → Option Thrown
  pub list_fails : Text → W → Option Thrown
  pub iso_now : W → Text × W
  pub date_now : W → ℕ × W
  pub sleep : ℕ → W → W
  pub insert_message : NewMessage → W → Outcome Text × W
  pub list_recent : Text → ℕ → W → Outcome (List Message) × W
  pub fetch : Text → Text → W → Fetched × W
  pub match : ReplyPattern → Text → Option Captures
  pub stringify : Json → Text
  pub byte_length : Text → ℕ
  pub sha1 : List ℕ → List ℕ
  pub sha256_hex : Text → Text
  pub utf8 : Text → List ℕ

-- The event log, in the order of the appends, and the closure variable `seen`.
pub record State (W : Type 0) : Type 0 where
  pub log : List RunEvent
  pub seen : List Text
  pub world : W

-- An `async` function: it returns or throws, and what it has done stays done.
abbrev pub M : Type 0 → Type 0 → Type 0
M W A = State W → Outcome A × State W

module _ {W : Type 0} where
  infixl 5 ◌>>=◌ ◌>>◌
  unfoldable pub and_then : {A B : Type 0} → Outcome A × State W → (A → M W B) → Outcome B × State W
  and_then (ok a, s) f = f a s
  and_then (thrown e, s) f = (thrown e, s)

  abbrev pub ◌>>=◌ : {A B : Type 0} → M W A → (A → M W B) → M W B
  ◌>>=◌ m f s = and_then (m s) f

  abbrev pub ◌>>◌ : {B : Type 0} → M W (Unit {0}) → M W B → M W B
  m >> k = m >>= λ _. k

  abbrev pub pure : {A : Type 0} → A → M W A
  pure a s = (ok a, s)

  abbrev pub throw : {A : Type 0} → Thrown → M W A
  throw e s = (thrown e, s)

  abbrev pub lift : {A : Type 0} → Outcome A → M W A
  lift o s = (o, s)

  unfoldable pub caught :
      {A : Type 0} → Outcome A × State W → (Thrown → M W A) → Outcome A × State W
  caught (ok a, s) h = (ok a, s)
  caught (thrown e, s) h = h e s

  -- `try { m } catch (e) { h(e) }`
  abbrev pub try_catch : {A : Type 0} → M W A → (Thrown → M W A) → M W A
  try_catch m h s = caught (m s) h

  unfoldable pub handed :
      {A B : Type 0} → Outcome A × State W → (Outcome A → M W B) → Outcome B × State W
  handed (o, s) f = f o s

  -- A `try` block of one call, with what stands behind it on either way out of the block.
  abbrev pub settle : {A B : Type 0} → M W A → (Outcome A → M W B) → M W B
  settle m f s = handed (m s) f

  -- A call that changes the world alone.
  unfoldable pub ask : {A : Type 0} → (W → A × W) → M W A
  ask f s = let (a, w) = f s.world in (ok a, record s { world = w })

  unfoldable pub ask_or_throw : {A : Type 0} → (W → Outcome A × W) → M W A
  ask_or_throw f s = let (a, w) = f s.world in (a, record s { world = w })

module _ {W : Type 0} (services : Services W) where
  open services use {rejects, list_fails, iso_now}

  abbrev store : RunEvent → Option Thrown → M W (Unit {0})
  store e none s = (ok tt, record s { log = s.log ++ e ∷ [] })
  store e (some t) s = (thrown t, s)

  -- `eventLog.append(e)`
  unfoldable pub append : RunEvent → M W (Unit {0})
  append e s = store e (rejects e s.world) s

  -- `eventLog.append(createRunEvent(run_id, chat_id, type, data))`
  unfoldable pub append_new : Text → Text → RunEventType → EventData → M W (Unit {0})
  append_new run_id chat_id type payload = do
    now ← ask iso_now
    append (create_run_event now run_id chat_id type payload)

  abbrev listed : List RunEvent → Option Thrown → M W (List RunEvent)
  listed events none = pure events
  listed events (some t) = throw t

  -- `eventLog.listByRunId(run_id)`: the rows of the run, in the order of their appends.
  unfoldable pub list_by_run_id : Text → M W (List RunEvent)
  list_by_run_id run_id s =
      listed (keep (λ e. text_eq e.run_id run_id) s.log) (list_fails run_id s.world) s
