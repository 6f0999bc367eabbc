-- ===== src/Handler/Serve/Guarded/Egress.antt =====
-- The stages of `ServeHTTP`, from the last to the first.
use rillan.Base.{
  ◌≡◌, ◌≢◌, inl, inr, refl, ap, subst, ◌∙◌, Bool, true, some, List, [], ◌∷◌, Str, All, arith,
  Option-cases, pos, ◌++◌, ◌&&◌, not, Bool-cases, Sum-cases,
}
use rillan.Policy.{Verdict, EvaluationResult}
use rillan.Retrieval.Debug.{summarize_debug}
use rillan.Handler.Plan.{extract_debug}
use rillan.Chat.{ChatCompletionRequest}
use rillan.Handler.Types.{
  Selection, is_local, EventType, EventError, Event, Reply, Sent, Exchange, World, SendError,
  Response,
}
use rillan.Handler.Serve.{
  release, note_retrieval, idle, forbidden, is_block, blocked_message, local_message,
}
use rillan.Handler.Route.{is_local_only}
use rillan.Handler.Serve.Deliver.{
  outbound_event, record_event, deliver_failure, deliver_response, deliver,
}
use rillan.Handler.Serve.Guarded.{IsEventOf, recorded, IsAccounted, unsent, denied, delivered}

appended {ℓ} : {A : Type ℓ} {xs : List A} {a : A} → xs ≡ [] → xs ++ (a ∷ []) ≡ a ∷ []
appended {a = a} e = ap (λ l. l ++ (a ∷ [])) e

module _ {F : Type 0} (world : World F) where
  -- Nothing was sent or recorded so far.
  abbrev pub IsFresh : Exchange F → Type 0
  IsFresh ex = (ex.sent ≡ []) × (ex.audit ≡ [])

  pub record_event-sent :
      (event : Event) (ex : Exchange F) → (record_event world event ex).sent ≡ ex.sent
  unfolding record_event
  record_event-sent event ex = ground arith

  -- The first event of a request.
  pub record_event-audit :
      (event : Event) (ex : Exchange F)
      → ex.audit ≡ []
      → (record_event world event ex).audit ≡ recorded world event
  unfolding record_event
  record_event-audit event ex e = ground (arith, e)

  pub note_retrieval-IsFresh :
      (request : ChatCompletionRequest F) (ex : Exchange F)
      → note_retrieval world request (idle world) ≡ some ex
      → IsFresh ex
  unfolding note_retrieval
  note_retrieval-IsFresh request ex e = elim (Option-cases (extract_debug request.metadata)) [
    | inl bare ↦ ground (arith, e, bare)
    | inr (m, found) ↦ elim (Option-cases (summarize_debug world.short_hash m (pos 3))) [
      | inl panics ↦ absurd (ground (arith, e, found, panics))
      | inr (summary, made) ↦ ground (arith, e, found, made)
    ]
  ]

  failure-IsAccounted :
      (selection : Selection) (event : Event) (err : SendError) (ex : Exchange F) (s : Sent F)
      → ex.sent ≡ s ∷ []
      → ex.audit ≡ []
      → IsEventOf world event s
      → let (reply, after) = deliver_failure world selection event err ex in
        IsAccounted world reply after × (after.sent ≡ s ∷ [])
  unfolding deliver_failure
  failure-IsAccounted selection event err ex s sent audit of_s = (
    delivered s (record event { error = some (EventError.send err.message) })
        (record_event-sent _ _ ∙ sent) (record_event-audit _ _ audit)
        (record {
          egress = of_s.egress;
          hashed = of_s.hashed;
          model = of_s.model;
          provider = of_s.provider;
        })
        (ground arith),
    record_event-sent _ _ ∙ sent,
  )

  response-IsAccounted :
      (selection : Selection) (event : Event) (streaming : Bool) (response : Response)
      (ex : Exchange F) (s : Sent F)
      → ex.sent ≡ s ∷ []
      → ex.audit ≡ []
      → IsEventOf world event s
      → let (reply, after) = deliver_response world selection event streaming response ex in
        IsAccounted world reply after × (after.sent ≡ s ∷ [])
  unfolding deliver_response
  response-IsAccounted selection event streaming response ex s sent audit of_s = (
    delivered s _ (record_event-sent _ _ ∙ sent) (record_event-audit _ _ audit)
        (record {
          egress = of_s.egress;
          hashed = of_s.hashed;
          model = of_s.model;
          provider = of_s.provider;
        })
        refl,
    record_event-sent _ _ ∙ sent,
  )

  -- What a delivery leaves: what is accounted for, and what was sent as it was evaluated.
  abbrev pub Outcome :
      Selection → EvaluationResult (ChatCompletionRequest F) → Reply × Exchange F → Type 0
  Outcome selection evaluation out =
      IsAccounted world out.0 out.1
      × All
          (λ (s : Sent F).
            (s.raw_body ≡ evaluation.body)
            × (s.selection ≡ selection)
            × (selection.provider ≡ some s.provider))
          out.1.sent

  sent-Outcome :
      (selection : Selection) (evaluation : EvaluationResult (ChatCompletionRequest F)) (s : Sent F)
      (out : Reply × Exchange F)
      → IsAccounted world out.0 out.1
      → out.1.sent ≡ s ∷ []
      → s.raw_body ≡ evaluation.body
      → s.selection ≡ selection
      → selection.provider ≡ some s.provider
      → Outcome selection evaluation out
  sent-Outcome selection evaluation s out accounted sent body selected reached =
      (accounted, rw sent ((body, selected, reached), tt))

  deliver-Outcome :
      (request_id : Str) (selection : Selection)
      (evaluation : EvaluationResult (ChatCompletionRequest F)) (ex : Exchange F)
      → IsFresh ex
      → Outcome selection evaluation (deliver world request_id selection evaluation ex)
  unfolding deliver
  deliver-Outcome request_id selection evaluation ex (no_sent, no_audit) =
      elim (Option-cases selection.provider) [
        | inl missing ↦ rw (missing, deliver) (unsent no_sent no_audit refl, rw no_sent tt)
        | inr (p, reached) ↦
            let s : Sent F = record {
              selection = selection;
              provider = p;
              request = evaluation.request;
              raw_body = evaluation.body;
            } in
            let event =
              outbound_event world EventType.remote_egress request_id selection evaluation in
            let sending = record ex { sent = ex.sent ++ (s ∷ []) } in
            let of_s : IsEventOf world event s = record {
              egress = refl;
              hashed = refl;
              model = refl;
              provider = refl;
            } in
            let one : sending.sent ≡ s ∷ [] = appended no_sent in
            elim (Sum-cases (world.send p evaluation.request evaluation.body)) [
              | inl (err, failed) ↦
                  let (accounted, sent) =
                    failure-IsAccounted selection event err sending s one no_audit of_s in
                  subst (Outcome selection evaluation) (ground (arith, reached, failed)) (
                    sent-Outcome selection evaluation s
                      (deliver_failure world selection event err sending) accounted sent refl refl
                      reached)
              | inr (response, answered) ↦
                  let (accounted, sent) =
                    response-IsAccounted selection event evaluation.request.stream response sending
                      s one no_audit of_s in
                  subst (Outcome selection evaluation) (ground (arith, reached, answered)) (
                    sent-Outcome selection evaluation s
                      (deliver_response world selection event evaluation.request.stream response
                        sending)
                      accounted sent refl refl reached)
            ]
      ]

  -- What is released is not blocked, and goes to a local candidate if it must.
  abbrev pub Released :
      Selection → EvaluationResult (ChatCompletionRequest F) → Reply × Exchange F → Type 0
  Released selection evaluation out =
      Outcome selection evaluation out
      × (out.1.sent ≢ []
          → (evaluation.verdict ≢ Verdict.block)
            × (evaluation.verdict ≡ Verdict.local_only → is_local selection ≡ true))

  deny-Released :
      (request_id message : Str) (selection : Selection)
      (evaluation : EvaluationResult (ChatCompletionRequest F)) (ex : Exchange F)
      → IsFresh ex
      → Released selection evaluation (
        forbidden message,
        record_event world
            (outbound_event world EventType.remote_deny request_id selection evaluation)
            ex,
      )
  deny-Released request_id message selection evaluation ex (no_sent, no_audit) =
      let unsent = record_event-sent _ ex ∙ no_sent in
      (
        (denied _ unsent (record_event-audit _ ex no_audit) refl refl, rw unsent tt),
        λ some_sent. absurd (some_sent unsent),
      )

  pub release-Released :
      (request_id : Str) (selection : Selection)
      (evaluation : EvaluationResult (ChatCompletionRequest F)) (ex : Exchange F)
      → IsFresh ex
      → Released selection evaluation (release world request_id selection evaluation ex)
  unfolding release
  release-Released request_id selection evaluation ex fresh =
      elim (Bool-cases (is_block evaluation.verdict)) [
        | inl blocks ↦
            subst (Released selection evaluation) (ground (arith, blocks))
              (deny-Released request_id blocked_message selection evaluation ex fresh)
        | inr passes ↦
            elim (Bool-cases (is_local_only evaluation.verdict && not (is_local selection))) [
              | inl strays ↦
                  subst (Released selection evaluation) (ground (arith, passes, strays))
                    (deny-Released request_id local_message selection evaluation ex fresh)
              | inr stays ↦ subst (Released selection evaluation) (ground (arith, passes, stays)) (
                deliver-Outcome request_id selection evaluation ex fresh,
                λ _. (λ b. ground (arith, passes, b), λ l. ground (arith, stays, l)),
              )
            ]
      ]
