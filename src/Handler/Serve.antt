-- ===== src/Handler/Serve.antt =====
-- `ServeHTTP`, stage by stage. The first stages are `Serve/Prepare`, and those of a request that is
-- sent are `Serve/Deliver`.
mod Prepare
pub mod Deliver
pub mod Guarded
pub mod Capped
use rillan.Base.{
  ℕ, length, leb, ℤ, pos, pos_part, Bool, true, false, not, ◌&&◌, ◌||◌, if◌then◌else◌, Option, none,
  some, List, [], ◌∷◌, ◌++◌, ◌⊎◌, inl, inr, Str, lit, str_eq,
}
use rillan.Policy.{
  Verdict, EvaluationPhase, IntentClassification, RuntimePolicy, EvaluationInput, EvaluationResult,
  merge_runtime_policy,
}
use rillan.Policy.Scanner.{scan}
use rillan.Policy.Evaluator.{evaluate}
use rillan.Retrieval.{resolve_settings}
use rillan.Retrieval.Debug.{summarize_debug}
use rillan.Retrieval.Prepare.{PrepareError, Pipeline, needs_preparation, prepare}
use rillan.Chat.{ChatCompletionRequest}
use rillan.Chat.Encode.{encode, decode}
use rillan.Chat.Validate.{validate_chat_completion_request}
use rillan.Chat.Features.{required_capabilities}
use rillan.Handler.Types.{
  ChatRuntime, ChatCompletionsHandler, current_runtime, Selection, provider_name, provider_key,
  is_remote, is_local, EventType, Event, Metric, Detail, Reply, HttpRequest, Exchange, World,
}
use rillan.Handler.Prompt.{apply_project_prompt_context}
use rillan.Handler.Plan.{
  apply_retrieval_plan, extract_debug, apply_retrieval_debug_headers, source_refs_from_request,
}
use rillan.Handler.Route.{is_local_only, resolve_route}
use rillan.Handler.Serve.Deliver.{deliver, hash_bytes, outbound_event, record_event}
unfoldable pub use Prepare.*

module _ {F : Type 0} (world : World F) where
  -- The verdict of the last evaluation.
  unfoldable pub release :
      (request_id : Str)
      → Selection
      → EvaluationResult (ChatCompletionRequest F)
      → Exchange F
      → Reply × Exchange F
  release request_id selection evaluation ex =
      let denied =
        record_event world
          (outbound_event world EventType.remote_deny request_id selection evaluation) ex in
      if is_block evaluation.verdict
      then (forbidden blocked_message, denied)
      else if is_local_only evaluation.verdict && not (is_local selection)
      then (forbidden local_message, denied)
      else deliver world request_id selection evaluation ex

  -- The event of a request that its first evaluation denies, under the key of a provider.
  abbrev pub preflight_event :
      (request_id key : Str)
      → ChatCompletionRequest F
      → Str
      → EvaluationResult (ChatCompletionRequest F)
      → Event
  preflight_event request_id key request body preflight = record {
    type = EventType.remote_deny;
    request_id = request_id;
    provider = key;
    model = request.model;
    verdict = preflight.verdict;
    reason = preflight.reason;
    route_source = preflight.trace.route_source;
    outbound_sha256 = hash_bytes world.sha256 body;
    source_refs = [];
    response_status = 0;
    response_sha256 = [];
    error = none;
  }

  abbrev pub idle : Exchange F
  idle = record { headers = []; audit = []; metrics = []; sent = [] }

  abbrev pub policy_error : Str → Reply
  policy_error message = fail 500 (lit "policy_error") (Detail.text message)

  module _ {E : Type 0} where
    -- The last evaluation, of what goes out.
    unfoldable pub serve_egress :
        ChatCompletionsHandler E F
        → ChatRuntime E F
        → (request_id : Str) → Option IntentClassification
        → Selection
        → ChatCompletionRequest F
        → Str
        → Reply × Exchange F
    serve_egress h runtime request_id classification selection request body =
        elim (note_retrieval world request idle) [
          | none ↦ (Reply.aborted, idle)
          | some ex ↦
              elim (evaluate (decode_into world) (
                evaluation_input world h runtime request body classification
                  EvaluationPhase.egress)) [
                    | none ↦ (policy_error (lit "policy evaluation failed"), ex)
                    | some evaluation ↦ release request_id selection evaluation ex
                  ]
        ]

    -- What follows the first evaluation, for a request that it does not block.
    unfoldable pub serve_routed :
        ChatCompletionsHandler E F
        → ChatRuntime E F
        → (request_id : Str) → Option IntentClassification
        → EvaluationResult (ChatCompletionRequest F)
        → ChatCompletionRequest F
        → Str
        → Reply × Exchange F
    serve_routed h runtime request_id classification preflight request body =
        let (selection, err) =
          resolve_route runtime request.model (required_capabilities world.json request)
            preflight.verdict classification in
        elim err [
          | some e ↦
              if is_local_only preflight.verdict
              then (
                forbidden local_message,
                record_event world
                    (preflight_event request_id (provider_key selection) request body preflight)
                    idle,
              )
              else (
                fail 503 (lit "upstream_unavailable")
                    (Detail.text (lit "no eligible runtime provider available")),
                idle,
              )
          | none ↦ elim (prepare_outbound world runtime selection preflight request body) [
            | inl reply ↦ (reply, idle)
            | inr (outbound, outbound_body) ↦
                serve_egress h runtime request_id classification selection outbound outbound_body
          ]
        ]

    -- The first evaluation. The event of a block names the handler's own provider.
    unfoldable pub serve_admitted :
        ChatCompletionsHandler E F
        → ChatRuntime E F
        → (request_id : Str) → ChatCompletionRequest F
        → Str
        → Reply × Exchange F
    serve_admitted h runtime request_id request body =
        let classification = classify world runtime request in
        elim (evaluate (decode_into world) (
          evaluation_input world h runtime request body classification EvaluationPhase.preflight)) [
            | none ↦ (policy_error (lit "policy preflight failed"), idle)
            | some preflight ↦
                if is_block preflight.verdict
                then (
                  forbidden blocked_message,
                  record_event world
                      (preflight_event request_id (provider_name h.own.provider) request body
                        preflight)
                      idle,
                )
                else serve_routed h runtime request_id classification preflight request body
          ]

    unfoldable pub serve_http : ChatCompletionsHandler E F → HttpRequest → Reply × Exchange F
    serve_http h r =
        let runtime = current_runtime h in
        if not (str_eq r.method (lit "POST"))
        then (
          fail 405 (lit "invalid_request_error") (Detail.text (lit "method must be POST")),
          idle,
        )
        else elim (admit world runtime r) [
          | inl reply ↦ (reply, idle)
          | inr (request, body) ↦ serve_admitted h runtime r.id request body
        ]
