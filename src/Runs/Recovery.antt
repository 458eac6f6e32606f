-- ===== src/Runs/Recovery.antt =====
-- What POST /runs stores is enough to execute the run later.
use cognitive_runtime.Uuid.{uuid_v5, bytes_to_uuid_string, parse_uuid_to_bytes, set_version, to_hex}
use mathlib.Core.Path.{subst}
use mathlib.Core.Bool.{cond}
use cognitive_runtime.Executor.Effects.{Services, State, and_then, append_new, ask}
use cognitive_runtime.Executor.Appended.{of_run, of_run-append, Appended, append_new-cases}
use cognitive_runtime.Executor.Outcome.{Outcome, ok, thrown, ◌>>=◌}
use cognitive_runtime.Prelude.{
  ℕ, take, inl, inr, sym, ap, ◌∙◌, true, Bool-cases, ◌++◌, ◌≡◌, refl, false, none, some, List, [],
  ◌∷◌, any, Text, text_eq, arith,
}
use cognitive_runtime.Contracts.Dag.{RunStatus}
use cognitive_runtime.Runs.Idempotent.{execute_run-listed}
use cognitive_runtime.Contracts.EventTypes.{is_type, run_created, user_message_recorded}
use cognitive_runtime.Contracts.Events.{RunEvent, create_run_event}
use cognitive_runtime.Runs.{
  visible, unless_empty, derive_run_status_from_events, track, completed_status,
  get_run_created_message, get_run_created_trace_id, get_user_message_id,
}
use cognitive_runtime.Runs.Routes.{
  CreateRunRequest, Api, RunReply, created_reply, created_data, recorded_data, message_name,
  z_create_run_request, create_run, RunJob, status_reply, enqueue, trace_or_new, enqueue_recovered,
  execute_created, execute_listed, execute_run,
}

message_missing :
    (es : List RunEvent)
    → any (λ e. is_type e.type run_created) es ≡ false
    → get_run_created_message es ≡ none
unfolding get_run_created_message
message_missing [] h = refl
message_missing (e ∷ es) h = ground (arith, message_missing es)

trace_missing :
    (es : List RunEvent)
    → any (λ e. is_type e.type run_created) es ≡ false
    → get_run_created_trace_id es ≡ none
unfolding get_run_created_trace_id
trace_missing [] h = refl
trace_missing (e ∷ es) h = ground (arith, trace_missing es)

-- The message, the message's id and the trace of a request, as the events of the run keep them.
record IsKept (events : List RunEvent) (message message_id trace_id : Text) : Type 0 where
  message_kept : get_run_created_message events ≡ some message
  id_kept : get_user_message_id events ≡ some message_id
  trace_kept : get_run_created_trace_id events ≡ some trace_id

-- The two events that POST /runs stores.
abbrev first_event : (ts run_id trace_id : Text) → CreateRunRequest → RunEvent
first_event ts run_id trace_id body =
    create_run_event ts run_id body.chat_id run_created (created_data body trace_id)

abbrev second_event : (ts run_id message_id : Text) → CreateRunRequest → RunEvent
second_event ts run_id message_id body =
    create_run_event ts run_id body.chat_id user_message_recorded (recorded_data body message_id)

stored-IsKept :
    (ts1 ts2 run_id : Text) (body : CreateRunRequest) (trace_id message_id : Text)
    → visible (some body.message) ≡ some body.message
    → unless_empty (some message_id) ≡ some message_id
    → unless_empty (some trace_id) ≡ some trace_id
    → IsKept
        (first_event ts1 run_id trace_id body ∷ second_event ts2 run_id message_id body ∷ [])
        body.message
        message_id
        trace_id
unfolding get_run_created_message get_user_message_id get_run_created_trace_id is_type text_eq
stored-IsKept ts1 ts2 run_id body trace_id message_id shown named traced = record {
  message_kept = shown;
  id_kept = rw named refl;
  trace_kept = traced;
}

unless_empty-append :
    (s : Text) (c : ℕ) (t : Text) → unless_empty (some (s ++ c ∷ t)) ≡ some (s ++ c ∷ t)
unless_empty-append [] c t = refl
unless_empty-append (d ∷ s) c t = refl

-- A name-based UUID is not empty.
uuid_v5-shown :
    (sha1 : List ℕ → List ℕ) (utf8 : Text → List ℕ) (namespace name uuid : Text)
    → uuid_v5 sha1 utf8 namespace name ≡ ok uuid
    → unless_empty (some uuid) ≡ some uuid
unfolding uuid_v5 bytes_to_uuid_string
uuid_v5-shown sha1 utf8 namespace name uuid h = shown (parse_uuid_to_bytes namespace) h
  where
    ok_inj : (a b : Text) → ok a ≡ ok b → a ≡ b
    ok_inj a b e = cc

    made : List ℕ → Text
    made ns = bytes_to_uuid_string (set_version (take 16 (sha1 (ns ++ utf8 name))))

    shown :
        (o : Outcome (List ℕ))
        → (o >>= λ ns. ok (made ns)) ≡ ok uuid
        → unless_empty (some uuid) ≡ some uuid
    shown (thrown e) k = cc
    shown (ok ns) k =
        subst (λ t. unless_empty (some t) ≡ some t) (ok_inj (made ns) uuid k)
          (unless_empty-append (take 8 (to_hex (set_version (take 16 (sha1 (ns ++ utf8 name)))))) 45
            _)

module _ {W : Type 0} (services : Services W) (api : Api W) (body : CreateRunRequest) where
  -- The job of a request.
  abbrev pub job_of_request : (run_id trace_id message_id : Text) → RunJob
  job_of_request run_id trace_id message_id = record {
    run_id = run_id;
    trace_id = trace_id;
    chat_id = body.chat_id;
    message_id = message_id;
    message = body.message;
  }

  -- What a request leaves that has been answered: its two events at the end of the log.
  record IsStored (run_id trace_id chat_id : Text) (s t : State W) : Type 0 where
    message_id : Text
    named : uuid_v5 services.sha1 services.utf8 run_id (message_name body.chat_id) ≡ ok message_id
    first : Text
    second : Text
    log :
        t.log
        ≡ (s.log ++ first_event first run_id trace_id body ∷ [])
          ++ second_event second run_id message_id body ∷ []

  abbrev AfterCreate : State W → Outcome RunReply × State W → Type 0
  AfterCreate s (ok (created_reply run_id trace_id chat_id), t) =
      IsStored run_id trace_id chat_id s t
  AfterCreate s (ok reply, t) = Unit
  AfterCreate s (thrown e, t) = Unit

  -- The second event and the reply.
  recorded-AfterCreate :
      (run_id trace_id : Text) (s : State W) (w : W) (later : body.execute ≡ false)
      (created : Appended services run_id body.chat_id run_created
        (created_data body trace_id)
        (record s { world = w }))
      (o : Outcome Text)
      → uuid_v5 services.sha1 services.utf8 run_id (message_name body.chat_id) ≡ o
      → AfterCreate s (
          and_then
            (o, created.state)
            (λ message_id u.
              and_then
                (append_new services run_id body.chat_id user_message_recorded
                  (recorded_data body message_id)
                  u)
                (λ _ v.
                  and_then
                    (cond body.execute
                      (enqueue services api (job_of_request run_id trace_id message_id))
                      (λ t. (ok tt, t))
                      v)
                    (λ _ t. (ok (created_reply run_id trace_id body.chat_id), t)))))
  unfolding and_then
  recorded-AfterCreate run_id trace_id s w later created (thrown e) named = tt
  recorded-AfterCreate run_id trace_id s w later created (ok message_id) named =
      elim (append_new-cases services run_id body.chat_id user_message_recorded
        (recorded_data body message_id) created.state) [
          | inl refused ↦ rw refused.result tt
          | inr recorded ↦ rw recorded.result (
              subst
                (λ b. AfterCreate s (
                  and_then
                    (cond b (enqueue services api (job_of_request run_id trace_id message_id))
                      (λ t. (ok tt, t)) recorded.state)
                    (λ _ t. (ok (created_reply run_id trace_id body.chat_id), t))))
                (sym later)
                (record {
                  message_id = message_id;
                  named = named;
                  first = created.ts;
                  second = recorded.ts;
                  log = rw recorded.log (rw created.log refl);
                }))
        ]

  create_run-AfterCreate :
      (s : State W) → body.execute ≡ false → AfterCreate s (create_run services api body s)
  unfolding create_run and_then ask
  create_run-AfterCreate s later = elim (Bool-cases (z_create_run_request services api body)) [
    | inr invalid ↦ rw invalid tt
    | inl valid ↦
        elim (append_new-cases services run_id body.chat_id run_created (created_data body trace_id)
          (record s { world = w })) [
            | inl refused ↦ rw (valid, refused.result) tt
            | inr created ↦
                rw (valid, created.result)
                  (recorded-AfterCreate run_id trace_id s w later created
                    (uuid_v5 services.sha1 services.utf8 run_id (message_name body.chat_id)) refl)
          ]
  ]
    where
      run_id : Text
      run_id = (api.random_uuid s.world).0

      trace_id : Text
      trace_id = (api.random_uuid (api.random_uuid s.world).1).0

      w : W
      w = (api.random_uuid (api.random_uuid s.world).1).1

  -- The events that a run has behind a request, if it had none before.
  stored-of_run :
      (run_id trace_id chat_id : Text) (s t : State W)
      (stored : IsStored run_id trace_id chat_id s t)
      → of_run run_id s.log ≡ []
      → of_run run_id t.log
        ≡ first_event stored.first run_id trace_id body
          ∷ second_event stored.second run_id stored.message_id body
          ∷ []
  stored-of_run run_id trace_id chat_id s t stored fresh =
      ap (of_run run_id) stored.log
      ∙ of_run-append run_id (s.log ++ first_event stored.first run_id trace_id body ∷ []) _ refl
      ∙ rw (of_run-append run_id s.log (first_event stored.first run_id trace_id body) refl, fresh)
          refl

  execute_stored :
      (first second run_id trace_id message_id : Text) (u : State W)
      → IsKept
          (first_event first run_id trace_id body ∷ second_event second run_id message_id body ∷ [])
          body.message
          message_id
          trace_id
      → execute_listed services api run_id
          (first_event first run_id trace_id body ∷ second_event second run_id message_id body ∷ [])
          u
        ≡ and_then
            (enqueue services api (job_of_request run_id trace_id message_id) u)
            (λ _ v. (ok (status_reply run_id RunStatus.queued), v))
  unfolding execute_listed execute_created enqueue_recovered trace_or_new and_then
      derive_run_status_from_events track completed_status is_type
  execute_stored first second run_id trace_id message_id u kept =
      rw (kept.message_kept, kept.id_kept, kept.trace_kept) refl

  -- If POST /runs has answered a request that is not to be executed at once, with a message that is
  -- not blank and a trace id that is not empty, for a run that had no events: as long as the run
  -- gets no other event and its log can be listed, POST /runs/:runId/execute enqueues the job with
  -- the run id and the trace id of the answer, the chat and the message of the request, and the
  -- message id of the name-based UUID, and answers QUEUED unless the enqueuing throws.
  pub create_run-recovered :
      (s t u : State W) (run_id trace_id chat_id : Text)
      → create_run services api body s ≡ (ok (created_reply run_id trace_id chat_id), t)
      → body.execute ≡ false
      → visible (some body.message) ≡ some body.message
      → unless_empty (some trace_id) ≡ some trace_id
      → of_run run_id s.log ≡ []
      → of_run run_id u.log ≡ of_run run_id t.log
      → services.is_uuid run_id ≡ true
      → services.list_fails run_id u.world ≡ none
      → (message_id : Text) × (uuid_v5 services.sha1 services.utf8 run_id
            (message_name body.chat_id)
          ≡ ok message_id)
        × (execute_run services api run_id u
            ≡ and_then
                (enqueue services api (job_of_request run_id trace_id message_id) u)
                (λ _ v. (ok (status_reply run_id RunStatus.queued), v)))
  create_run-recovered s t u run_id trace_id chat_id answered later shown traced fresh same valid
        readable =
      (
        stored.message_id,
        stored.named,
        execute_run-listed services api run_id u valid readable
            ∙ ap (λ events. execute_listed services api run_id events u)
                (same ∙ stored-of_run run_id trace_id chat_id s t stored fresh)
            ∙ execute_stored stored.first stored.second run_id trace_id stored.message_id u (
                stored-IsKept stored.first stored.second run_id body trace_id stored.message_id
                  shown
                  (uuid_v5-shown services.sha1 services.utf8 run_id (message_name body.chat_id)
                    stored.message_id stored.named)
                  traced),
      )
    where
      stored : IsStored run_id trace_id chat_id s t
      stored = subst (AfterCreate s) answered (create_run-AfterCreate s later)
