-- ===== src/Handler/Serve/Prepare.antt =====
-- The stages of `ServeHTTP` up to the request that goes out: what is admitted, what is evaluated,
-- and what is prepared for the route.
use rillan.Base.{
  ℕ, length, leb, pos, pos_part, Bool, true, false, not, ◌&&◌, if◌then◌else◌, Option, none, some,
  [], ◌∷◌, ◌++◌, ◌⊎◌, inl, inr, Str, lit,
}
use rillan.Policy.{
  Verdict, EvaluationPhase, IntentClassification, EvaluationInput, EvaluationResult,
  merge_runtime_policy,
}
use rillan.Policy.Scanner.{scan}
use rillan.Retrieval.{resolve_settings}
use rillan.Retrieval.Debug.{summarize_debug}
use rillan.Retrieval.Prepare.{PrepareError, needs_preparation, prepare}
use rillan.Chat.{ChatCompletionRequest}
use rillan.Chat.Encode.{encode, decode}
use rillan.Chat.Validate.{validate_chat_completion_request}
use rillan.Handler.Types.{
  ChatRuntime, ChatCompletionsHandler, Selection, is_remote, Metric, Detail, Reply, HttpRequest,
  Exchange, World,
}
use rillan.Handler.Prompt.{apply_project_prompt_context}
use rillan.Handler.Plan.{apply_retrieval_plan, extract_debug, apply_retrieval_debug_headers}

abbrev pub max_body : ℕ
max_body = 2097152

abbrev pub fail : ℕ → Str → Detail → Reply
fail status type message = Reply.api_error status type message

abbrev pub invalid : Detail → Reply
invalid message = fail 400 (lit "invalid_request_error") message

abbrev pub forbidden : Str → Reply
forbidden message = fail 403 (lit "policy_violation") (Detail.text message)

abbrev pub blocked_message : Str
blocked_message = lit "outbound request blocked by policy"

abbrev pub local_message : Str
local_message = lit "request requires local-only handling"

abbrev pub prepare_reply : PrepareError → Reply
prepare_reply PrepareError.panic = Reply.aborted
prepare_reply err = invalid (Detail.preparation err)

abbrev pub is_block : Verdict → Bool
is_block Verdict.block = true
is_block _ = false

module _ {F : Type 0} (world : World F) where
  -- `json.Unmarshal` of a redacted body sets every field of the request.
  abbrev pub decode_into : Str → ChatCompletionRequest F → Option (ChatCompletionRequest F)
  decode_into text old = decode world.json text

  -- The headers and metrics of a compiled context. A panic gives none.
  unfoldable pub note_retrieval : ChatCompletionRequest F → Exchange F → Option (Exchange F)
  note_retrieval request ex = elim (extract_debug request.metadata) [
    | none ↦ some ex
    | some metadata ↦ elim (summarize_debug world.short_hash metadata (pos 3)) [
      | none ↦ none
      | some summary ↦ some (record ex {
        headers = apply_retrieval_debug_headers ex.headers summary;
        metrics =
            ex.metrics ++ (Metric.retrieval (pos_part summary.source_count) summary.truncated ∷ []);
      })
    ]
  ]

  module _ {E : Type 0} where
    -- Up to the encoding of the request with the project's prompts.
    unfoldable pub admit : ChatRuntime E F → HttpRequest → Reply ⊎ (ChatCompletionRequest F × Str)
    admit runtime r =
        if not (r.readable && leb (length r.body) max_body)
        then inl (invalid (Detail.text (lit "request body could not be read")))
        else elim (decode world.json r.body) [
          | none ↦ inl (invalid (Detail.text (lit "request body must be valid JSON")))
          | some given ↦ elim (validate_chat_completion_request world.json given) [
            | some err ↦ inl (invalid (Detail.validation err))
            | none ↦
                elim (apply_project_prompt_context world.json world.read_skill given
                  runtime.project) [
                    | none ↦ inl (
                        fail 500 (lit "config_error")
                          (Detail.text (lit "project prompt composition failed")))
                    | some request ↦ elim (encode world.json request) [
                      | none ↦ inl (
                          fail 500 (lit "internal_error")
                            (Detail.text (lit "request could not be prepared")))
                      | some body ↦ inr (request, body)
                    ]
                  ]
          ]
        ]

    unfoldable pub classify :
        ChatRuntime E F → ChatCompletionRequest F → Option IntentClassification
    classify runtime request = elim runtime.classifier [
      | none ↦ none
      | some classifier ↦ classifier request
    ]

    abbrev pub evaluation_input :
        ChatCompletionsHandler E F
        → ChatRuntime E F
        → ChatCompletionRequest F
        → Str
        → Option IntentClassification
        → EvaluationPhase
        → EvaluationInput (ChatCompletionRequest F)
    evaluation_input h runtime request body classification phase = record {
      project = runtime.project;
      runtime = merge_runtime_policy runtime.system runtime.project;
      request = request;
      body = body;
      scan = scan h.rules body;
      classification = classification;
      phase = phase;
    }

    -- The retrieval, under the plan of the preflight if the route is remote.
    unfoldable pub prepare_outbound :
        ChatRuntime E F
        → Selection
        → EvaluationResult (ChatCompletionRequest F)
        → ChatCompletionRequest F
        → Str
        → Reply ⊎ (ChatCompletionRequest F × Str)
    prepare_outbound runtime selection preflight request body = elim runtime.pipeline [
      | none ↦ inr (request, body)
      | some p ↦ elim (resolve_settings p.defaults request.retrieval) [
        | inl err ↦ inl (invalid (Detail.setting err))
        | inr settings ↦
            let planned =
              if is_remote selection
              then apply_retrieval_plan request preflight.retrieval settings
              else request in
            if needs_preparation world.json world.scores p planned
            then elim (prepare world.json world.scores p planned) [
              | inl err ↦ inl (prepare_reply err)
              | inr out ↦ inr out
            ]
            else inr (request, body)
      ]
    ]
