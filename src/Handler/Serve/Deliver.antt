-- ===== src/Handler/Serve/Deliver.antt =====
-- What `ServeHTTP` does once a request may go out: it is sent, and the response is passed on.
use rillan.Base.{
  Bool, ◌||◌, if◌then◌else◌, Option, none, some, [], ◌∷◌, ◌++◌, inl, inr, is_empty, Str, lit,
}
use rillan.Policy.{EvaluationResult}
use rillan.Chat.{ChatCompletionRequest}
use rillan.Handler.Types.{
  Selection, provider_key, EventType, EventError, Event, Metric, Detail, Reply, Response, SendError,
  Exchange, World,
}
use rillan.Handler.Proxy.{copy_headers, copy_body_and_hash}
use rillan.Handler.Plan.{source_refs_from_request}

-- audit.HashBytes
unfoldable pub hash_bytes : (Str → Str) → Str → Str
hash_bytes sha256 value = if is_empty value then [] else sha256 value

module _ {F : Type 0} where
  -- `recordAudit`: without a recorder nothing is done, and an error of the recorder is only logged.
  unfoldable pub record_event : World F → Event → Exchange F → Exchange F
  record_event world event ex = elim world.recorder [
    | none ↦ ex
    | some records ↦
        if records ex.audit event then record ex { audit = ex.audit ++ (event ∷ []) } else ex
  ]

  abbrev pub count : Metric → Exchange F → Exchange F
  count metric ex = record ex { metrics = ex.metrics ++ (metric ∷ []) }

  -- The event of a request after its last evaluation.
  abbrev pub outbound_event :
      World F
      → EventType
      → (request_id : Str) → Selection
      → EvaluationResult (ChatCompletionRequest F)
      → Event
  outbound_event world type request_id selection evaluation = record {
    type = type;
    request_id = request_id;
    provider = provider_key selection;
    model = evaluation.request.model;
    verdict = evaluation.verdict;
    reason = evaluation.reason;
    route_source = evaluation.trace.route_source;
    outbound_sha256 = hash_bytes world.sha256 evaluation.body;
    source_refs = source_refs_from_request evaluation.request;
    response_status = 0;
    response_sha256 = [];
    error = none;
  }

module _ {F : Type 0} (world : World F) where
  -- The upstream failed to answer.
  unfoldable pub deliver_failure : Selection → Event → SendError → Exchange F → Reply × Exchange F
  unfolding record_event
  deliver_failure selection event err ex = (
    Reply.api_error (if err.is_timeout then 504 else 502) (lit "upstream_error")
        (Detail.text (lit "upstream request failed")),
    record_event world (record event { error = some (EventError.send err.message) })
        (count (Metric.provider_request (provider_key selection) (lit "error") 0) ex),
  )

  -- The upstream's response, to the client.
  unfoldable pub deliver_response :
      Selection → Event → (streaming : Bool) → Response → Exchange F → Reply × Exchange F
  unfolding record_event
  deliver_response selection event streaming response ex =
      let (out, hash, err) =
        copy_body_and_hash world.client world.sha256 response.body
          (streaming || response.stream_type) (record { written = []; flushes = 0 }) in
      let result = elim err as (λ _. Str) [ none ↦ lit "success" | some e ↦ lit "copy_error" ] in
      let error = elim err as (λ _. Option EventError) [
        | none ↦ none
        | some e ↦ some (EventError.copy e)
      ] in
      let copied = record ex {
        headers = copy_headers world.canonical ex.headers response.header;
      } in
      (
        Reply.relayed response.status_code out.written,
        record_event world
            (record event {
              response_status = response.status_code;
              response_sha256 = hash;
              error = error;
            })
            (count (Metric.provider_request (provider_key selection) result response.status_code)
              copied),
      )

  -- A route without a provider, which is nil, makes the call panic.
  unfoldable pub deliver :
      (request_id : Str)
      → Selection
      → EvaluationResult (ChatCompletionRequest F)
      → Exchange F
      → Reply × Exchange F
  unfolding deliver_failure deliver_response
  deliver request_id selection evaluation ex = elim selection.provider [
    | none ↦ (Reply.aborted, ex)
    | some p ↦
        let event = outbound_event world EventType.remote_egress request_id selection evaluation in
        let sending = record ex {
          sent =
              ex.sent
              ++ (record {
                selection = selection;
                provider = p;
                request = evaluation.request;
                raw_body = evaluation.body;
              }
                  ∷ []);
        } in
        elim (world.send p evaluation.request evaluation.body) [
          | inl err ↦ deliver_failure selection event err sending
          | inr response ↦
              deliver_response selection event evaluation.request.stream response sending
        ]
  ]
