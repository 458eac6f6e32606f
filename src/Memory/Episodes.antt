-- ===== src/Memory/Episodes.antt =====
-- A store has at most one episode of a run (packages/runtime/src/memory/m1-episodic-service.ts).
use cognitive_runtime.Prelude.{
  ℕ, ltb, ◌+◌, ◌≤◌, ◌≡◌, refl, sym, ap, ◌∙◌, Bool-cases, inl, inr, Bool, true, false, if◌then◌else◌,
  Option, none, some, [], ◌∷◌, Text, text_eq, text_eq_iff, arith,
}
use cognitive_runtime.Executor.Outcome.{Outcome, ok, thrown}
use cognitive_runtime.Executor.Effects.{State, and_then, ask_or_throw}
use cognitive_runtime.Memory.{
  M1EpisodicRecord, M1Store, insert_unless, write_for, truthy, write_episode,
}

abbrev pub is_of_run : Text → Option Text → Bool
is_of_run run_id none = false
is_of_run run_id (some own) = text_eq own run_id

-- `episodes` counts the rows of a run. A read tells whether there is one, and changes nothing; an
-- insert that returns or throws adds at most its own row.
pub record IsM1Store {W F : Type 0} (store : M1Store W F) : Type 0 where
  pub episodes : Text → W → ℕ
  pub answers :
      (run_id : Text) (w : W) (b : Bool)
      → (store.exists_for_run run_id w).0 ≡ ok b
      → b ≡ ltb 0 (episodes run_id w)
  pub reads :
      (own run_id : Text) (w : W) → episodes own (store.exists_for_run run_id w).1 ≡ episodes own w
  pub inserts :
      (run_id : Text) (e : M1EpisodicRecord F) (w : W)
      → episodes run_id (store.insert e w).1
        ≤ episodes run_id w + (if is_of_run run_id e.run_id then 1 else 0)

module _ {W F : Type 0} (store : M1Store W F) (law : IsM1Store store) where
  abbrev count : Text → State W → ℕ
  count run_id s = law.episodes run_id s.world

  insert-count :
      (run_id : Text) (e : M1EpisodicRecord F) (s : State W)
      → count run_id (ask_or_throw (store.insert e) s).1
        ≤ count run_id s + (if is_of_run run_id e.run_id then 1 else 0)
  unfolding ask_or_throw
  insert-count run_id e s = law.inserts run_id e s.world

  insert-other :
      (run_id : Text) (e : M1EpisodicRecord F) (s : State W)
      → is_of_run run_id e.run_id ≡ false
      → count run_id s ≤ 1
      → count run_id (ask_or_throw (store.insert e) s).1 ≤ 1
  insert-other run_id e s other low = ground (arith, insert-count run_id e s, other, low)

  -- The answer to `exists_for_run`, in a state behind it.
  answered :
      (own run_id : Text) (e : M1EpisodicRecord F) (r : Outcome Bool × W) (s : State W)
      → e.run_id ≡ some own
      → ((b : Bool) → r.0 ≡ ok b → b ≡ ltb 0 (law.episodes own r.1))
      → law.episodes run_id r.1 ≤ 1
      → count run_id (and_then (r.0, record s { world = r.1 }) (insert_unless store e)).1 ≤ 1
  unfolding and_then
  answered own run_id e (thrown x, w) s h tell low = low
  answered own run_id e (ok true, w) s h tell low = low
  answered own run_id e (ok false, w) s h tell low = elim (Bool-cases (text_eq own run_id)) [
    | inl same ↦ own_row same
    | inr other ↦
        insert-other run_id e (record s { world = w }) (ap (is_of_run run_id) h ∙ other) low
  ]
    where
      none_yet : law.episodes own w ≡ 0
      none_yet = ground (arith, tell false refl)

      own_row :
          text_eq own run_id ≡ true
          → count run_id (ask_or_throw (store.insert e) (record s { world = w })).1 ≤ 1
      own_row same = ground (
        arith,
        insert-count run_id e (record s { world = w }),
        none_yet,
        ap (λ id. law.episodes id w) ((text_eq_iff own run_id).0 same),
      )

  write_for-count :
      (c : ℕ) (cs : Text) (e : M1EpisodicRecord F) (s : State W)
      → count (c ∷ cs) s ≤ 1
      → (own : Option Text) → e.run_id ≡ own
      → count (c ∷ cs) (write_for store e (truthy own) s).1 ≤ 1
  unfolding and_then ask_or_throw text_eq
  write_for-count c cs e s low none h = insert-other (c ∷ cs) e s (ap (is_of_run (c ∷ cs)) h) low
  write_for-count c cs e s low (some []) h =
      insert-other (c ∷ cs) e s (ap (is_of_run (c ∷ cs)) h) low
  write_for-count c cs e s low (some (d ∷ ds)) h =
      answered (d ∷ ds) (c ∷ cs) e (store.exists_for_run (d ∷ ds) s.world) s h
        (λ b eq.
          law.answers (d ∷ ds) s.world b eq
          ∙ ap (ltb 0) (sym (law.reads (d ∷ ds) (d ∷ ds) s.world)))
        (rw (law.reads (c ∷ cs) (d ∷ ds) s.world) low)

  -- If the store's reads and inserts keep its laws, no write takes a run with a non-empty id beyond
  -- one episode, whichever record is written and whichever call throws.
  pub write_episode-IsSingle :
      (c : ℕ) (cs : Text) (e : M1EpisodicRecord F) (s : State W)
      → law.episodes (c ∷ cs) s.world ≤ 1
      → law.episodes (c ∷ cs) (write_episode store e s).1.world ≤ 1
  unfolding write_episode
  write_episode-IsSingle c cs e s low = write_for-count c cs e s low e.run_id refl
