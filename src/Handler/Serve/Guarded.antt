-- ===== src/Handler/Serve/Guarded.antt =====
-- What `ServeHTTP` sends upstream, and what it records.
pub mod Egress
pub mod Served
use rillan.Base.{
  ◌≡◌, ◌≢◌, ◌⊎◌, inl, inr, refl, ap, sym, ◌∙◌, Bool, true, false, if◌then◌else◌, Option, none, some,
  List, [], ◌∷◌, is_empty, Str, All, ◌==◌,
}
use rillan.Policy.{EvaluationPhase, IntentClassification, EvaluationResult}
use rillan.Policy.Scanner.{scan}
use rillan.Policy.Evaluator.Verdicts.{IsTradeSecret}
use rillan.Chat.{ChatCompletionRequest}
use rillan.Routing.Types.{local, Candidate}
use rillan.Handler.Types.{
  ChatRuntime, ChatCompletionsHandler, Selection, provider_key, is_local, EventType, Event, Reply,
  HttpRequest, Sent, Exchange, World, Detail,
}
use rillan.Chat.Features.{required_capabilities}
use rillan.Policy.Evaluator.{evaluate}
use rillan.Handler.Route.{resolve_route}
use rillan.Handler.Serve.{evaluation_input, decode_into, admit, classify, prepare_outbound}
use rillan.Handler.Serve.Deliver.{hash_bytes}

module _ {E : Type 0} {F : Type 0} (world : World F) (h : ChatCompletionsHandler E F)
    (runtime : ChatRuntime E F) where
  -- The way of a request to its last evaluation: what was admitted, the first evaluation of that,
  -- the route that this verdict selects, and what was prepared for the route.
  pub record IsOutbound (r : HttpRequest) (given : ChatCompletionRequest F) (given_body : Str)
      (preflight : EvaluationResult (ChatCompletionRequest F)) (selection : Selection)
      (request : ChatCompletionRequest F) (body : Str) : Type 0 where
    pub admitted : admit world runtime r ≡ inr (given, given_body)
    pub evaluated :
        evaluate (decode_into world) (
          evaluation_input world h runtime given given_body
            (classify world runtime given)
            EvaluationPhase.preflight)
        ≡ some preflight
    pub routed :
        resolve_route runtime given.model
          (required_capabilities world.json given)
          preflight.verdict
          (classify world runtime given)
        ≡ (selection, none)
    pub prepared :
        prepare_outbound world runtime selection preflight given given_body ≡ inr (request, body)

  -- What was sent went that way, and was then scanned and evaluated: the scan found nothing that
  -- blocks, what it found is redacted, and a trade secret goes to a local candidate.
  pub record IsGuarded (r : HttpRequest) (s : Sent F) : Type 0 where
    pub given : ChatCompletionRequest F
    pub given_body : Str
    pub preflight : EvaluationResult (ChatCompletionRequest F)
    pub request : ChatCompletionRequest F
    pub body : Str
    pub outbound : IsOutbound r given given_body preflight s.selection request body
    pub unblocked : (scan h.rules body).has_blocking_findings ≡ false
    pub redacted :
        (scan h.rules body).findings ≢ []
        → is_empty (scan h.rules body).redacted_body ≡ false
        → s.raw_body ≡ (scan h.rules body).redacted_body
    pub unchanged : (scan h.rules body).findings ≡ [] → s.raw_body ≡ body
    pub kept_local :
        IsTradeSecret (
          evaluation_input world h runtime request body
            (classify world runtime given)
            EvaluationPhase.egress)
        → is_local s.selection ≡ true
    pub reached : s.selection.provider ≡ some s.provider

-- The answer of a request that the policy denies.
abbrev pub is_forbidden : Reply → Bool
is_forbidden (Reply.api_error status type message) = status == 403
is_forbidden _ = false

module _ {F : Type 0} (world : World F) where
  -- An event that stands for what was sent.
  pub record IsEventOf (e : Event) (s : Sent F) : Type 0 where
    pub egress : e.type ≡ EventType.remote_egress
    pub hashed : e.outbound_sha256 ≡ hash_bytes world.sha256 s.raw_body
    pub model : e.model ≡ s.request.model
    pub provider : e.provider ≡ provider_key s.selection

  -- What is recorded of a request that has one event: that event, if the handler has a recorder and
  -- it succeeds, and otherwise nothing.
  abbrev pub recorded : Event → List Event
  recorded e = elim world.recorder [
    | none ↦ []
    | some records ↦ if records [] e then e ∷ [] else []
  ]

  -- The three ways a request ends: with nothing sent or recorded; denied by the policy, with the
  -- event of it and nothing sent; or with one request sent and the event of it.
  pub data IsAccounted (reply : Reply) (ex : Exchange F) : Type 0 where
    unsent : ex.sent ≡ [] → ex.audit ≡ [] → is_forbidden reply ≡ false → IsAccounted reply ex
    denied :
        (e : Event)
        → ex.sent ≡ []
        → ex.audit ≡ recorded e
        → e.type ≡ EventType.remote_deny
        → is_forbidden reply ≡ true
        → IsAccounted reply ex
    delivered :
        (s : Sent F) (e : Event)
        → ex.sent ≡ s ∷ []
        → ex.audit ≡ recorded e
        → IsEventOf e s
        → is_forbidden reply ≡ false
        → IsAccounted reply ex
