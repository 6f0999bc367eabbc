-- ===== src/Handler/Serve/Guarded/Served.antt =====
-- `ServeHTTP` as a whole.
use rillan.Base.{
  ◌≡◌, ◌≢◌, inl, inr, refl, ap, sym, subst, ◌∙◌, false, Option, some, List, [], ◌∷◌, is_empty, Str,
  All, arith, Option-cases, Bool-cases, Sum-cases, lit, str_eq,
}
use rillan.Policy.{Verdict, EvaluationPhase, EvaluationInput, EvaluationResult}
use rillan.Policy.Evaluator.{evaluate}
use rillan.Policy.Evaluator.Verdicts.{IsTradeSecret, evaluate-verdict, evaluate-body}
use rillan.Chat.{ChatCompletionRequest}
use rillan.Chat.Features.{required_capabilities}
use rillan.Handler.Types.{
  ChatRuntime, ChatCompletionsHandler, current_runtime, Selection, is_local, provider_key,
  provider_name, Reply, HttpRequest, Exchange, World, Detail, EventType, Event,
}
use rillan.Handler.Route.{is_local_only, resolve_route}
use rillan.Handler.Serve.{
  evaluation_input, decode_into, release, serve_egress, serve_routed, serve_admitted, serve_http,
  note_retrieval, idle, policy_error, admit, prepare_outbound, classify, preflight_event, forbidden,
  fail, is_block, blocked_message, local_message,
}
use rillan.Handler.Serve.Deliver.{record_event}
use rillan.Handler.Serve.Guarded.{IsOutbound, IsGuarded, is_forbidden, IsAccounted, unsent, denied}
use rillan.Handler.Serve.Guarded.Egress.{
  IsFresh, Released, record_event-sent, record_event-audit, note_retrieval-IsFresh,
  release-Released,
}

All-weaken {ℓ κ λ'} :
    {A : Type ℓ} {P : A → Type κ} {Q : A → Type λ'} (xs : List A)
    → (xs ≢ [] → (a : A) → Q a → P a)
    → All Q xs
    → All P xs
All-weaken [] f q = tt
All-weaken (x ∷ xs) f (q, qs) = (f (λ bad. cc) x q, All-weaken xs (λ _. f (λ bad. cc)) qs)

-- What an evaluation that does not block says of the body it was given.
module _ {Request : Type 0} (decode : Str → Request → Option Request)
    (input : EvaluationInput Request) (r : EvaluationResult Request)
    (e : evaluate decode input ≡ some r) (passes : r.verdict ≢ Verdict.block) where
  unblocked_lem : input.scan.has_blocking_findings ≡ false
  unblocked_lem = elim (Bool-cases input.scan.has_blocking_findings) [
    | inl blocks ↦ absurd (passes ((evaluate-verdict decode input r e).0.1 blocks))
    | inr clear ↦ clear
  ]

  local_lem : IsTradeSecret input → r.verdict ≡ Verdict.local_only
  local_lem secret = (evaluate-verdict decode input r e).1.1 (unblocked_lem, secret)

  redacted_lem :
      input.scan.findings ≢ []
      → is_empty input.scan.redacted_body ≡ false
      → r.body ≡ input.scan.redacted_body
  redacted_lem found some_body =
      ((evaluate-body decode input r e).0 (ground (arith, unblocked_lem, found, some_body))).0

  unchanged_lem : input.scan.findings ≡ [] → r.body ≡ input.body
  unchanged_lem bare = ((evaluate-body decode input r e).1 (ground (arith, unblocked_lem, bare))).0

module _ {E : Type 0} {F : Type 0} (world : World F) (h : ChatCompletionsHandler E F) where
  module _ (runtime : ChatRuntime E F) (r : HttpRequest) where
    -- An end of a request that is accounted for, and guarded.
    abbrev IsServed : Reply × Exchange F → Type 0
    IsServed out = IsAccounted world out.0 out.1 × All (IsGuarded world h runtime r) out.1.sent

    unsent-IsServed :
        (reply : Reply) (ex : Exchange F)
        → IsFresh world ex
        → is_forbidden reply ≡ false
        → IsServed (reply, ex)
    unsent-IsServed reply ex (no_sent, no_audit) f = (unsent no_sent no_audit f, rw no_sent tt)

    module _ (given : ChatCompletionRequest F) (given_body : Str)
        (preflight : EvaluationResult (ChatCompletionRequest F)) (selection : Selection)
        (request : ChatCompletionRequest F) (body : Str)
        (way : IsOutbound world h runtime r given given_body preflight selection request body) where
      abbrev egress_input : EvaluationInput (ChatCompletionRequest F)
      egress_input =
          evaluation_input world h runtime request body (classify world runtime given)
            EvaluationPhase.egress

      guarded_of :
          (evaluation : EvaluationResult (ChatCompletionRequest F)) (out : Reply × Exchange F)
          → evaluate (decode_into world) egress_input ≡ some evaluation
          → Released world selection evaluation out
          → IsServed out
      guarded_of evaluation out e ((accounted, sent), rules) = (
        accounted,
        All-weaken out.1.sent
            (λ some_sent s (same_body, same_selection, reached).
              let (passes, stays) = rules some_sent in
              record {
                given = given;
                given_body = given_body;
                preflight = preflight;
                request = request;
                body = body;
                outbound =
                    subst
                      (λ x. IsOutbound world h runtime r given given_body preflight x request body)
                      (sym same_selection) way;
                unblocked = unblocked_lem (decode_into world) egress_input evaluation e passes;
                redacted = λ found some_body.
                    same_body
                    ∙ redacted_lem (decode_into world) egress_input evaluation e passes found
                        some_body;
                unchanged = λ bare.
                    same_body
                    ∙ unchanged_lem (decode_into world) egress_input evaluation e passes bare;
                kept_local = λ secret.
                    ap is_local same_selection
                    ∙ stays (local_lem (decode_into world) egress_input evaluation e passes secret);
                reached = ap (λ (x : Selection). x.provider) same_selection ∙ reached;
              })
            sent,
      )

      serve_egress-IsServed :
          (request_id : Str)
          → IsServed (
              serve_egress world h runtime request_id
                (classify world runtime given)
                selection
                request
                body)
      unfolding serve_egress
      serve_egress-IsServed request_id =
          elim (Option-cases (note_retrieval world request (idle world))) [
            | inl panics ↦
                subst IsServed (ground (arith, panics))
                  (unsent-IsServed Reply.aborted (idle world) (refl, refl) refl)
            | inr (ex, noted) ↦
                let fresh = note_retrieval-IsFresh world request ex noted in
                elim (Option-cases (evaluate (decode_into world) egress_input)) [
                  | inl failed ↦ subst IsServed (ground (arith, noted, failed)) (
                      unsent-IsServed (policy_error world (lit "policy evaluation failed")) ex fresh
                        refl)
                  | inr (evaluation, made) ↦ subst IsServed (ground (arith, noted, made)) (
                      guarded_of evaluation (release world request_id selection evaluation ex) made
                        (release-Released world request_id selection evaluation ex fresh))
                ]
          ]

    deny-IsServed :
        (message : Str) (event : Event)
        → event.type ≡ EventType.remote_deny
        → IsServed (forbidden message, record_event world event (idle world))
    deny-IsServed message event deny =
        let unsent = record_event-sent world event (idle world) in
        (
          denied event unsent (record_event-audit world event (idle world) refl) deny refl,
          rw unsent tt,
        )

    prepare_outbound-is_forbidden :
        (selection : Selection) (preflight : EvaluationResult (ChatCompletionRequest F))
        (request : ChatCompletionRequest F) (body : Str) (reply : Reply)
        → prepare_outbound world runtime selection preflight request body ≡ inl reply
        → is_forbidden reply ≡ false
    unfolding prepare_outbound
    prepare_outbound-is_forbidden selection preflight request body reply e = ground (arith, e)

    admit-is_forbidden :
        (reply : Reply) → admit world runtime r ≡ inl reply → is_forbidden reply ≡ false
    unfolding admit
    admit-is_forbidden reply e = ground (arith, e)

    serve_routed-IsServed :
        (request_id : Str) (preflight : EvaluationResult (ChatCompletionRequest F))
        (request : ChatCompletionRequest F) (body : Str)
        → admit world runtime r ≡ inr (request, body)
        → evaluate (decode_into world) (
            evaluation_input world h runtime request body
              (classify world runtime request)
              EvaluationPhase.preflight)
          ≡ some preflight
        → IsServed (
            serve_routed world h runtime request_id
              (classify world runtime request)
              preflight
              request
              body)
    unfolding serve_routed
    serve_routed-IsServed request_id preflight request body admitted evaluated =
        let classification = classify world runtime request in
        let (selection, err) =
          resolve_route runtime request.model (required_capabilities world.json request)
            preflight.verdict classification in
        elim (Option-cases err) [
          | inr (e, failed) ↦ elim (Bool-cases (is_local_only preflight.verdict)) [
            | inl stays ↦ subst IsServed (ground (arith, failed, stays)) (
                deny-IsServed local_message
                  (preflight_event world request_id (provider_key selection) request body preflight)
                  refl)
            | inr strays ↦ subst IsServed (ground (arith, failed, strays)) (
                unsent-IsServed
                  (fail 503 (lit "upstream_unavailable")
                    (Detail.text (lit "no eligible runtime provider available")))
                  (idle world) (refl, refl) refl)
          ]
          | inl routed ↦
              elim (Sum-cases (prepare_outbound world runtime selection preflight request body)) [
                | inl (reply, failed) ↦ subst IsServed (ground (arith, routed, failed)) (
                    unsent-IsServed reply (idle world) (refl, refl)
                      (prepare_outbound-is_forbidden selection preflight request body reply failed))
                | inr ((outbound, outbound_body), prepared) ↦
                    subst IsServed (ground (arith, routed, prepared)) (
                      serve_egress-IsServed request body preflight selection outbound outbound_body
                        (record {
                          admitted = admitted;
                          evaluated = evaluated;
                          routed = ap (λ e. (selection, e)) routed;
                          prepared = prepared;
                        })
                        request_id)
              ]
        ]

    serve_admitted-IsServed :
        (request_id : Str) (request : ChatCompletionRequest F) (body : Str)
        → admit world runtime r ≡ inr (request, body)
        → IsServed (serve_admitted world h runtime request_id request body)
    unfolding serve_admitted
    serve_admitted-IsServed request_id request body admitted =
        let classification = classify world runtime request in
        let input =
          evaluation_input world h runtime request body classification EvaluationPhase.preflight in
        elim (Option-cases (evaluate (decode_into world) input)) [
          | inl failed ↦ subst IsServed (ground (arith, failed)) (
              unsent-IsServed (policy_error world (lit "policy preflight failed")) (idle world)
                (refl, refl) refl)
          | inr (preflight, made) ↦ elim (Bool-cases (is_block preflight.verdict)) [
            | inl blocks ↦ subst IsServed (ground (arith, made, blocks)) (
                deny-IsServed blocked_message
                  (preflight_event world request_id (provider_name h.own.provider) request body
                    preflight)
                  refl)
            | inr passes ↦
                subst IsServed (ground (arith, made, passes))
                  (serve_routed-IsServed request_id preflight request body admitted made)
          ]
        ]

  serve_http-IsServed : (r : HttpRequest) → IsServed (current_runtime h) r (serve_http world h r)
  unfolding serve_http
  serve_http-IsServed r =
      let runtime = current_runtime h in
      elim (Bool-cases (str_eq r.method (lit "POST"))) [
        | inr other ↦ subst (IsServed runtime r) (ground (arith, other)) (
            unsent-IsServed runtime r
              (fail 405 (lit "invalid_request_error") (Detail.text (lit "method must be POST")))
              (idle world) (refl, refl) refl)
        | inl post ↦ elim (Sum-cases (admit world runtime r)) [
          | inl (reply, failed) ↦ subst (IsServed runtime r) (ground (arith, post, failed)) (
              unsent-IsServed runtime r reply (idle world) (refl, refl)
                (admit-is_forbidden runtime r reply failed))
          | inr ((request, body), admitted) ↦
              subst (IsServed runtime r) (ground (arith, post, admitted))
                (serve_admitted-IsServed runtime r r.id request body admitted)
        ]
      ]

  -- Whatever a request makes the handler send upstream was admitted, evaluated, routed by the
  -- verdict, and prepared for the route, to whose provider it goes. What was prepared was scanned
  -- and evaluated again: the scan found nothing that blocks; what it found is redacted in the body
  -- sent, unless nothing is left of the redacted body; where it found nothing, the body prepared
  -- is sent; and what the classifier or the project calls a trade secret goes to a local
  -- candidate.
  pub serve_http-IsGuarded :
      (r : HttpRequest)
      → All (IsGuarded world h (current_runtime h) r) (serve_http world h r).1.sent
  serve_http-IsGuarded r = (serve_http-IsServed r).1

  -- Every request ends in one of three ways. Nothing is sent or recorded, and the answer is not
  -- 403; or nothing is sent, the answer is 403, and the event is one of a denial; or one request
  -- is sent, and the event is one of its egress, with the hash of the body sent, the model and the
  -- provider. In the last two ways that one event is recorded if the handler has a recorder and
  -- its `Record` succeeds, and otherwise nothing is.
  pub serve_http-IsAccounted :
      (r : HttpRequest) → IsAccounted world (serve_http world h r).0 (serve_http world h r).1
  serve_http-IsAccounted r = (serve_http-IsServed r).0
