-- ===== src/Executor/Log/Redelivered.antt =====
-- executeDag on a DAG that has completed before.
use cognitive_runtime.Prelude.{
  ◌≡◌, refl, ap, ◌∙◌, Bool, true, false, ◌&&◌, Bool-cases, inl, inr, none, some, get_or, List, [],
  ◌∷◌, ◌++◌, keep, keep-append, any, last, text_eq,
}
use cognitive_runtime.Contracts.Dag.{DagSpec}
use cognitive_runtime.Contracts.EventTypes.{is_type, dag_completed}
use cognitive_runtime.Contracts.Events.{RunEvent}
use cognitive_runtime.Executor.Outcome.{ok}
use cognitive_runtime.Executor.Effects.{Services, State, and_then, list_by_run_id}
use cognitive_runtime.Executor.Derive.{of_dag, events_for_dag}
use cognitive_runtime.Executor.Nodes.{NodeExecContext}
use cognitive_runtime.Executor.Validate.{validate_dag_spec_or_throw}
use cognitive_runtime.Executor.Run.{after_completed, last_dag_completed, execute_valid, execute_dag}

keep-keep :
    {A : Type 0} (p q : A → Bool) (xs : List A) → keep q (keep p xs) ≡ keep (λ x. p x && q x) xs
keep-keep p q [] = refl
keep-keep p q (x ∷ xs) = elim (Bool-cases (p x)) [
  | inl kept ↦ rw kept (elim (Bool-cases (q x)) [
    | inl both ↦ rw both (ap (λ l. x ∷ l) (keep-keep p q xs))
    | inr one ↦ rw one (keep-keep p q xs)
  ])
  | inr dropped ↦ rw dropped (keep-keep p q xs)
]

keep-none : {A : Type 0} (p : A → Bool) (xs : List A) → any p xs ≡ false → keep p xs ≡ []
keep-none p [] h = refl
keep-none p (x ∷ xs) h = elim (Bool-cases (p x)) [
  | inl found ↦ absurd (clash (rw found at h))
  | inr other ↦ rw other (keep-none p xs (rw other at h))
]
  where
    clash : true ≡ false → ⊥
    clash e = cc

last-append : {A : Type 0} (xs : List A) (x : A) → last (xs ++ x ∷ []) ≡ some x
last-append [] x = refl
last-append (y ∷ []) x = refl
last-append (y ∷ z ∷ xs) x = last-append (z ∷ xs) x

-- The last member that has a property.
last-keep :
    {A : Type 0} (p : A → Bool) (xs : List A) (x : A) (ys : List A)
    → p x ≡ true
    → any p ys ≡ false
    → last (keep p (xs ++ x ∷ ys)) ≡ some x
last-keep p xs x ys here later =
    ap last (keep-append p xs (x ∷ ys))
    ∙ rw (here, keep-none p ys later) (last-append (keep p xs) x)

-- The event is a DAG_COMPLETED of the DAG in its run.
abbrev pub is_completion : DagSpec → RunEvent → Bool
unfolding is_type
is_completion dag e =
    text_eq e.run_id dag.run_id
    && (of_dag dag.dag_id e.payload.dag_id && is_type e.type dag_completed)

module _ {W : Type 0} (services : Services W) (ctx : NodeExecContext) (dag : DagSpec) where
  last_dag_completed-log :
      (log : List RunEvent)
      → last_dag_completed services ctx dag
          (events_for_dag dag.dag_id (keep (λ f. text_eq f.run_id dag.run_id) log))
        ≡ last (keep (is_completion dag) log)
  unfolding last_dag_completed events_for_dag is_type
  last_dag_completed-log log = ap last (
      keep-keep (λ e. of_dag dag.dag_id e.payload.dag_id) (λ e. is_type e.type dag_completed)
        (keep (λ f. text_eq f.run_id dag.run_id) log)
      ∙ keep-keep (λ f. text_eq f.run_id dag.run_id) _ log)

  -- A redelivered job: if the DAG is valid, the events of the run can be listed, and `e` is the
  -- last DAG_COMPLETED of this DAG and run in the log, executeDag returns the `ok` of `e`, with no
  -- results, and changes nothing at all, whatever else the log holds before and after `e`.
  pub execute_dag_completed :
      (s : State W) (d : DagSpec) (before after : List RunEvent) (e : RunEvent)
      → validate_dag_spec_or_throw services.is_uuid services.is_datetime dag ≡ ok d
      → services.list_fails dag.run_id s.world ≡ none
      → s.log ≡ before ++ e ∷ after
      → is_completion dag e ≡ true
      → any (is_completion dag) after ≡ false
      → execute_dag services ctx dag s ≡ (ok (get_or e.payload.ok false, []), s)
  unfolding execute_dag execute_valid list_by_run_id after_completed and_then
  execute_dag_completed s d before after e valid listed log here later =
      rw (valid, listed, done) refl
    where
      done :
          last_dag_completed services ctx dag
            (events_for_dag dag.dag_id (keep (λ f. text_eq f.run_id dag.run_id) s.log))
          ≡ some e
      done =
          last_dag_completed-log s.log
          ∙ ap (λ l. last (keep (is_completion dag) l)) log
          ∙ last-keep (is_completion dag) before e after here later
