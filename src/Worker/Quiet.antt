-- ===== src/Worker/Quiet.antt =====
-- How many RUN_COMPLETED events a run has, and the calls that add none.
use cognitive_runtime.Prelude.{
  ℕ, ◌+◌, ◌≤◌, ◌≡◌, refl, sym, ◌∙◌, true, false, Bool-cases, inl, inr, List, [], ◌∷◌, ◌++◌, keep,
  keep-append, length, length-append, All, Text, text_eq, arith,
}
use cognitive_runtime.Contracts.Dag.{DagSpec}
use cognitive_runtime.Contracts.EventTypes
use cognitive_runtime.Contracts.EventTypes.{RunEventType, is_type, type_index, run_completed}
use cognitive_runtime.Contracts.Events.{RunEvent, EventData, create_run_event}
use cognitive_runtime.Executor.Effects.{Services, State, append_new}
use cognitive_runtime.Executor.Appended.{of_run, append_new-cases}
use cognitive_runtime.Executor.Traversal.{is_emitted}
use cognitive_runtime.Executor.Nodes.{NodeExecContext}
use cognitive_runtime.Executor.Log.{IsOfRun}
use cognitive_runtime.Executor.Log.Resumed.{Extends, execute_dag-Extends}
use cognitive_runtime.Executor.Run.{execute_dag}
use cognitive_runtime.Executor.Respects.{IsStable, Respects}

-- The RUN_COMPLETED events of a run.
unfoldable pub completions : Text → List RunEvent → ℕ
unfolding is_type
completions run_id log = length (keep (λ e. is_type e.type run_completed) (of_run run_id log))

pub completions-append :
    (run_id : Text) (log es : List RunEvent)
    → completions run_id (log ++ es) ≡ completions run_id log + completions run_id es
unfolding completions
completions-append run_id log es =
    rw
      (
        keep-append (λ e. text_eq e.run_id run_id) log es,
        keep-append (λ e. is_type e.type run_completed) (of_run run_id log) (of_run run_id es),
      )
      (length-append (keep (λ e. is_type e.type run_completed) (of_run run_id log)) _)

completions_one :
    (run_id : Text) (e : RunEvent)
    → (completions run_id (e ∷ []) ≤ 1)
      × (is_type e.type run_completed ≡ false → completions run_id (e ∷ []) ≡ 0)
unfolding completions
completions_one run_id e = elim (Bool-cases (text_eq e.run_id run_id)) [
  | inr other ↦ rw other (omega arith, λ _. refl)
  | inl own ↦ elim (Bool-cases (is_type e.type run_completed)) [
    | inl completed ↦ rw (own, completed) (omega arith, λ h. absurd (true_false h))
    | inr quiet ↦ rw (own, quiet) (omega arith, λ _. refl)
  ]
]
  where
    true_false : true ≡ false → ⊥
    true_false e = cc

emitted_quiet : (type : RunEventType) → is_emitted type ≡ true → is_type type run_completed ≡ false
unfolding is_type type_index
emitted_quiet EventTypes.run_completed h = sym h
emitted_quiet _ h = refl

module _ {W : Type 0} (run_id : Text) where
  -- The run has no more RUN_COMPLETED events than before.
  pub record IsQuiet (s t : State W) : Type 0 where
    pub none_added : completions run_id t.log ≤ completions run_id s.log

  pub IsQuiet-IsStable : IsStable IsQuiet
  IsQuiet-IsStable = record {
    same = λ s. record { none_added = omega arith };
    trans = λ s t u a b. record { none_added = omega (arith, a.none_added, b.none_added) };
    world = λ s w. record { none_added = omega arith };
  }

module _ {W : Type 0} (services : Services W) (run_id : Text) where
  pub append_new-adds :
      (chat_id : Text) (type : RunEventType) (d : EventData) (s : State W)
      → completions run_id (append_new services run_id chat_id type d s).1.log
        ≤ completions run_id s.log + 1
  append_new-adds chat_id type d s = elim (append_new-cases services run_id chat_id type d s) [
    | inl refused ↦ rw (refused.result, refused.log) (omega arith)
    | inr appended ↦
        rw
          (
            appended.result,
            appended.log,
            completions-append run_id s.log
                (create_run_event appended.ts run_id chat_id type d ∷ []),
          )
          (omega (
            arith,
            (completions_one run_id (create_run_event appended.ts run_id chat_id type d)).0,
          ))
  ]

  pub append_new-IsQuiet :
      (chat_id : Text) (type : RunEventType) (d : EventData)
      → is_type type run_completed ≡ false
      → Respects (IsQuiet run_id) (append_new services run_id chat_id type d)
  append_new-IsQuiet chat_id type d other = record { after = λ s. record { none_added = quiet s } }
    where
      quiet :
          (s : State W)
          → completions run_id (append_new services run_id chat_id type d s).1.log
            ≤ completions run_id s.log
      quiet s = elim (append_new-cases services run_id chat_id type d s) [
        | inl refused ↦ rw (refused.result, refused.log) (omega arith)
        | inr appended ↦
            rw
              (
                appended.result,
                appended.log,
                completions-append run_id s.log
                    (create_run_event appended.ts run_id chat_id type d ∷ []),
              )
              (omega (
                arith,
                (completions_one run_id (create_run_event appended.ts run_id chat_id type d)).1
                    other,
              ))
      ]

  All-quiet :
      (dag : DagSpec) (events : List RunEvent)
      → All (IsOfRun dag) events
      → completions run_id events ≡ 0
  unfolding completions
  All-quiet dag [] h = refl
  All-quiet dag (e ∷ es) (own, h) =
      completions-append run_id (e ∷ []) es
      ∙ omega
          (arith, (completions_one run_id e).1 (emitted_quiet e.type own.type), All-quiet dag es h)

  pub execute_dag-IsQuiet :
      (ctx : NodeExecContext) (dag : DagSpec)
      → Respects (IsQuiet run_id) (execute_dag services ctx dag)
  execute_dag-IsQuiet ctx dag = record {
    after = λ s. record { none_added = quiet s (execute_dag-Extends services ctx dag s) };
  }
    where
      quiet :
          (s : State W)
          → Extends dag s.log (execute_dag services ctx dag s).1.log
          → completions run_id (execute_dag services ctx dag s).1.log ≤ completions run_id s.log
      quiet s x =
          rw (x.log, completions-append run_id s.log x.events, All-quiet dag x.events x.of_run)
            (omega arith)
