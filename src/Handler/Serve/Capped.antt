-- ===== src/Handler/Serve/Capped.antt =====
-- How much context goes to a remote provider.
use mathlib.Core.Sum.{inr-injective}
use rillan.Base.{
  ◌≡◌, refl, ap, sym, subst, ◌∙◌, ◌⊎◌, inl, inr, ℕ, ◌≤◌, ℤ, pos, pos_part, ltb_ℤ, length, true,
  false, Option, some, [], Str, arith, Option-cases, Bool-cases, Sum-cases,
}
use rillan.Policy.{
  Verdict, EvaluationPhase, EvaluationInput, EvaluationResult, RetrievalPlan, merge_runtime_policy,
}
use rillan.Policy.Evaluator.{evaluate, runtime_policy}
use rillan.Retrieval.{Settings, DebugMetadata, resolve_settings}
use rillan.Retrieval.Prepare.{prepare, needs_preparation, Pipeline, metadata_entries}
use rillan.Retrieval.Prepare.Sanitized.{IsContext, no_context, found_context, prepare-IsPrepared}
use rillan.Chat.{ChatCompletionRequest}
use rillan.Chat.Encode.{decode}
use rillan.Handler.Types.{
  ChatRuntime, ChatCompletionsHandler, Selection, HttpRequest, World, Reply, is_remote,
}
use rillan.Handler.Prompt.{apply_project_prompt_context}
use rillan.Handler.Plan.{apply_retrieval_plan, extract_debug}
use rillan.Handler.Plan.Caps.{lower, apply_retrieval_plan-caps}
use rillan.Handler.Serve.{evaluation_input, decode_into, admit, prepare_outbound}
use rillan.Handler.Serve.Guarded.{IsOutbound}

pos_part_le : (n : ℕ) (z : ℤ) → ltb_ℤ (pos n) z ≡ false → pos_part z ≤ n
pos_part_le n z h = ground (arith, h)

module _ {E : Type 0} {F : Type 0} (world : World F) (h : ChatCompletionsHandler E F)
    (runtime : ChatRuntime E F) where
  -- A request that was admitted carries no metadata.
  admit-metadata :
      (r : HttpRequest) (given : ChatCompletionRequest F) (body : Str)
      → admit world runtime r ≡ inr (given, body)
      → given.metadata ≡ []
  unfolding admit decode apply_project_prompt_context
  admit-metadata r given body e = ground (arith, e)

  -- The limits of every runtime policy.
  runtime_policy_limits :
      (input : EvaluationInput (ChatCompletionRequest F))
      → input.runtime ≡ merge_runtime_policy runtime.system runtime.project
      → ((runtime_policy input).minimize_remote_context ≡ true)
        × ((runtime_policy input).remote_retrieval_top_k ≡ 2)
        × ((runtime_policy input).remote_max_context_chars ≡ 1200)
  unfolding runtime_policy merge_runtime_policy
  runtime_policy_limits input e = ground (arith, e)

  -- The plan of a first evaluation that allows the request.
  preflight_plan :
      (given : ChatCompletionRequest F) (body : Str) (c : _)
      (preflight : EvaluationResult (ChatCompletionRequest F))
      → evaluate
          (decode_into world)
          (evaluation_input world h runtime given body c EvaluationPhase.preflight)
        ≡ some preflight
      → preflight.verdict ≡ Verdict.allow
      → (preflight.retrieval.apply ≡ true)
        × (preflight.retrieval.top_k_cap ≡ 2)
        × (preflight.retrieval.max_context_chars ≡ 1200)
  unfolding evaluate
  preflight_plan given body c preflight e v = ground (
    arith,
    e,
    v,
    runtime_policy_limits (evaluation_input world h runtime given body c EvaluationPhase.preflight)
        refl,
  )

  -- The settings of the context that was found, if any was, are within the caps.
  abbrev IsCapped : ChatCompletionRequest F → Type 0
  IsCapped out =
      (m : DebugMetadata F)
      → extract_debug out.metadata ≡ some m
      → (length m.compiled.text ≤ 1200) × (ltb_ℤ (pos 2) m.settings.top_k ≡ false)

  lower_bound : (cap : ℕ) (setting : ℤ) → ltb_ℤ (pos cap) (lower cap setting) ≡ false
  lower_bound cap setting = ground arith

  context-IsCapped :
      (p : Pipeline E F) (planned : ChatCompletionRequest F) (text : Str)
      (metadata : Option (DebugMetadata F))
      → IsContext world.json world.scores p planned text metadata
      → ((s : Settings)
          → resolve_settings p.defaults planned.retrieval ≡ inr s
          → s.enabled ≡ true
          → (ltb_ℤ (pos 2) s.top_k ≡ false) × (ltb_ℤ (pos 1200) s.max_context_chars ≡ false))
      → (m : DebugMetadata F) → extract_debug (metadata_entries metadata) ≡ some m
      → (length m.compiled.text ≤ 1200) × (ltb_ℤ (pos 2) m.settings.top_k ≡ false)
  unfolding extract_debug
  context-IsCapped p planned text metadata (no_context t bare) limits m e =
      absurd (ground (arith, e, bare))
  context-IsCapped p planned text metadata (found_context n found t on on_too resolved fits) limits
        m e =
      let same : n ≡ m = ground (arith, e, found) in
      let (k, c) = limits n.settings resolved on_too in
      subst
        (λ (m : DebugMetadata F).
          (length m.compiled.text ≤ 1200) × (ltb_ℤ (pos 2) m.settings.top_k ≡ false))
        same (omega (arith, fits, pos_part_le 1200 n.settings.max_context_chars c), k)

  planned_limits :
      (p : Pipeline E F) (given : ChatCompletionRequest F) (plan : RetrievalPlan) (old : Settings)
      → resolve_settings p.defaults given.retrieval ≡ inr old
      → plan.apply ≡ true
      → plan.top_k_cap ≡ 2
      → plan.max_context_chars ≡ 1200
      → (s : Settings)
      → resolve_settings p.defaults (apply_retrieval_plan given plan old).retrieval ≡ inr s
      → s.enabled ≡ true
      → (ltb_ℤ (pos 2) s.top_k ≡ false) × (ltb_ℤ (pos 1200) s.max_context_chars ≡ false)
  unfolding apply_retrieval_plan
  planned_limits p given plan old resolved on k c s e enabled = elim (Bool-cases old.enabled) [
    | inl old_on ↦
        let (new, capped, _, top, chars) =
          apply_retrieval_plan-caps p.defaults given plan old resolved on old_on (omega (arith, k))
            (omega (arith, c)) in
        let same : new ≡ s = inr-injective _ _ (sym capped ∙ e) in
        subst
          (λ (s : Settings).
            (ltb_ℤ (pos 2) s.top_k ≡ false) × (ltb_ℤ (pos 1200) s.max_context_chars ≡ false))
          same
          (
            rw top (rw k (lower_bound 2 old.top_k)),
            rw chars (rw c (lower_bound 1200 old.max_context_chars)),
          )
    | inr old_off ↦
        let unplanned : apply_retrieval_plan given plan old ≡ given = ground (arith, on, old_off) in
        let same : old ≡ s = inr-injective _ _ (
          sym resolved
          ∙ ap (λ (q : ChatCompletionRequest F). resolve_settings p.defaults q.retrieval)
              (sym unplanned)
          ∙ e) in
        absurd (ground (arith, old_off, ap (λ (s : Settings). s.enabled) same, enabled))
  ]

  prepared-IsCapped :
      (p : Pipeline E F) (planned out : ChatCompletionRequest F) (body : Str)
      → ((s : Settings)
          → resolve_settings p.defaults planned.retrieval ≡ inr s
          → s.enabled ≡ true
          → (ltb_ℤ (pos 2) s.top_k ≡ false) × (ltb_ℤ (pos 1200) s.max_context_chars ≡ false))
      → prepare world.json world.scores p planned ≡ inr (out, body)
      → IsCapped out
  prepared-IsCapped p planned out body limits e =
      let made = prepare-IsPrepared world.json world.scores p planned out body e in
      λ m found.
        context-IsCapped p planned made.text made.metadata made.context limits m (
          ap (λ (q : ChatCompletionRequest F). extract_debug q.metadata) (sym made.request) ∙ found)

  -- A request without metadata carries no context.
  bare-IsCapped : (q : ChatCompletionRequest F) → q.metadata ≡ [] → IsCapped q
  unfolding extract_debug
  bare-IsCapped q bare m found = absurd (ground (arith, bare, found))

  same-IsCapped :
      (q out : ChatCompletionRequest F) (q_body out_body : Str)
      → ◌≡◌ {A = Reply ⊎ (ChatCompletionRequest F × Str)} (inr (q, q_body)) (inr (out, out_body))
      → IsCapped q
      → IsCapped out
  same-IsCapped q out q_body out_body e capped =
      subst IsCapped (ap (λ (z : ChatCompletionRequest F × Str). z.0) (inr-injective _ _ e)) capped

  pipeline-IsCapped :
      (p : Pipeline E F) (given out : ChatCompletionRequest F) (given_body body : Str)
      (preflight : EvaluationResult (ChatCompletionRequest F)) (selection : Selection)
      → runtime.pipeline ≡ some p
      → given.metadata ≡ []
      → preflight.retrieval.apply ≡ true
      → preflight.retrieval.top_k_cap ≡ 2
      → preflight.retrieval.max_context_chars ≡ 1200
      → is_remote selection ≡ true
      → prepare_outbound world runtime selection preflight given given_body ≡ inr (out, body)
      → IsCapped out
  unfolding prepare_outbound
  pipeline-IsCapped p given out given_body body preflight selection piped bare on k c far e =
      elim (Sum-cases (resolve_settings p.defaults given.retrieval)) [
        | inl (err, failed) ↦ absurd (ground (arith, e, piped, failed))
        | inr (old, resolved) ↦
            let planned = apply_retrieval_plan given preflight.retrieval old in
            elim (Bool-cases (needs_preparation world.json world.scores p planned)) [
              | inr unneeded ↦
                  same-IsCapped given out given_body body
                    (sym (ground (arith, piped, resolved, far, unneeded)) ∙ e)
                    (bare-IsCapped given bare)
              | inl needed ↦ elim (Sum-cases (prepare world.json world.scores p planned)) [
                | inl (err, failed) ↦
                    absurd (ground (arith, e, piped, resolved, far, needed, failed))
                | inr ((q, q_body), made) ↦
                    same-IsCapped q out q_body body
                      (sym (ground (arith, piped, resolved, far, needed, made)) ∙ e)
                      (prepared-IsCapped p planned q q_body
                        (planned_limits p given preflight.retrieval old resolved on k c) made)
              ]
            ]
      ]

  -- Where the first evaluation allows a request and its route is remote, the context that the
  -- request goes out with, if any was compiled, has at most 1200 bytes, and its setting of how
  -- many chunks are searched for is at most 2.
  pub outbound-IsCapped :
      (r : HttpRequest) (given : ChatCompletionRequest F) (given_body : Str)
      (preflight : EvaluationResult (ChatCompletionRequest F)) (selection : Selection)
      (request : ChatCompletionRequest F) (body : Str)
      → IsOutbound world h runtime r given given_body preflight selection request body
      → preflight.verdict ≡ Verdict.allow
      → is_remote selection ≡ true
      → (m : DebugMetadata F) → extract_debug request.metadata ≡ some m
      → (length m.compiled.text ≤ 1200) × (ltb_ℤ (pos 2) m.settings.top_k ≡ false)
  unfolding prepare_outbound
  outbound-IsCapped r given given_body preflight selection request body way allowed far =
      let bare = admit-metadata r given given_body way.admitted in
      let (on, k, c) = preflight_plan given given_body _ preflight way.evaluated allowed in
      elim (Option-cases runtime.pipeline) [
        | inl unpiped ↦
            same-IsCapped given request given_body body
              (sym (ground (arith, unpiped)) ∙ way.prepared) (bare-IsCapped given bare)
        | inr (p, piped) ↦
            pipeline-IsCapped p given request given_body body preflight selection piped bare on k c
              far way.prepared
      ]
