-- ===== src/Executor/Respects.antt =====
-- A relation between the states before and after a call, through every construct that the
-- executor's code is made of.
use cognitive_runtime.Prelude.{Bool, true, false, if◌then◌else◌}
use mathlib.Core.Bool.{cond}
use cognitive_runtime.Executor.Outcome.{Outcome, ok, thrown, Thrown}
use cognitive_runtime.Executor.Effects.{
  State, M, ◌>>=◌, and_then, try_catch, caught, handed, settle, lift, ask, ask_or_throw,
}

-- A preorder on states that no change of the world matters to.
pub record IsStable {W : Type 0} (R : State W → State W → Type 0) : Type 0 where
  pub same : (s : State W) → R s s
  pub trans : (s t u : State W) → R s t → R t u → R s u
  pub world : (s : State W) (w : W) → R s (record s { world = w })

-- Whatever the call returns or throws, the state after it stands in the relation.
pub record Respects {W A : Type 0} (R : State W → State W → Type 0) (m : M W A) : Type 0 where
  pub after : (s : State W) → R s (m s).1

module _ {W : Type 0} {R : State W → State W → Type 0} (stable : IsStable R) where
  and_then-R :
      {A B : Type 0} (s : State W) (r : Outcome A × State W) (f : A → M W B)
      → R s r.1
      → ((a : A) → Respects R (f a))
      → R s (and_then r f).1
  unfolding and_then
  and_then-R s (ok a, t) f h k = stable.trans s t _ h ((k a).after t)
  and_then-R s (thrown e, t) f h k = h

  pub bind-Respects :
      {A B : Type 0} {m : M W A} {f : A → M W B}
      → Respects R m
      → ((a : A) → Respects R (f a))
      → Respects R (m >>= f)
  bind-Respects {m = m} {f = f} h k = record { after = λ s. and_then-R s (m s) f (h.after s) k }

  caught-R :
      {A : Type 0} (s : State W) (r : Outcome A × State W) (f : Thrown → M W A)
      → R s r.1
      → ((e : Thrown) → Respects R (f e))
      → R s (caught r f).1
  unfolding caught
  caught-R s (ok a, t) f h k = h
  caught-R s (thrown e, t) f h k = stable.trans s t _ h ((k e).after t)

  pub try_catch-Respects :
      {A : Type 0} {m : M W A} {f : Thrown → M W A}
      → Respects R m
      → ((e : Thrown) → Respects R (f e))
      → Respects R (try_catch m f)
  try_catch-Respects {m = m} {f = f} h k = record { after = λ s. caught-R s (m s) f (h.after s) k }

  handed-R :
      {A B : Type 0} (s : State W) (r : Outcome A × State W) (f : Outcome A → M W B)
      → R s r.1
      → ((o : Outcome A) → Respects R (f o))
      → R s (handed r f).1
  unfolding handed
  handed-R s (o, t) f h k = stable.trans s t _ h ((k o).after t)

  pub settle-Respects :
      {A B : Type 0} {m : M W A} {f : Outcome A → M W B}
      → Respects R m
      → ((o : Outcome A) → Respects R (f o))
      → Respects R (settle m f)
  settle-Respects {m = m} {f = f} h k = record { after = λ s. handed-R s (m s) f (h.after s) k }

  pub cond-Respects :
      {A : Type 0} (b : Bool) {m n : M W A} → Respects R m → Respects R n → Respects R (cond b m n)
  cond-Respects true h k = h
  cond-Respects false h k = k

  pub if-Respects :
      {A : Type 0} (b : Bool) {m n : M W A}
      → Respects R m
      → Respects R n
      → Respects R (if b then m else n)
  if-Respects true h k = h
  if-Respects false h k = k

  -- A call that does nothing but return or throw.
  pub lift-Respects : {A : Type 0} (o : Outcome A) → Respects R (lift {W = W} o)
  lift-Respects o = record { after = stable.same }

  pub ask-Respects : {A : Type 0} (f : W → A × W) → Respects R (ask f)
  unfolding ask
  ask-Respects f = record { after = λ s. stable.world s (f s.world).1 }

  pub ask_or_throw-Respects : {A : Type 0} (f : W → Outcome A × W) → Respects R (ask_or_throw f)
  unfolding ask_or_throw
  ask_or_throw-Respects f = record { after = λ s. stable.world s (f s.world).1 }
