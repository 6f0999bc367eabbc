-- ===== src/Retrieval/Prepare/Sanitized.antt =====
-- The request that `Prepare` returns.
use mathlib.Core.Sum.{inr-injective}
use rillan.Base.{
  ◌≡◌, refl, sym, subst, Option, none, some, [], inl, inr, arith, Str, Option-cases, Sum-cases,
  Bool-cases, true, ap, ◌∙◌, length, pos_part, ◌≤◌, not, is_none,
}
use rillan.Retrieval.{Settings, DebugMetadata, resolve_settings, build_query}
use rillan.Retrieval.Context.{compile_context}
use rillan.Retrieval.Context.Bounds.{compile_context-fits}
use rillan.Retrieval.Prepare.{
  Scores, Pipeline, sanitize_request, sanitized, context_text, retrieve, prepare, combine_searches,
  rewrite_query,
}
use rillan.Chat.{Message, ChatCompletionRequest, Json, message_text}
use rillan.Chat.Encode.{encode}

module _ {F : Type 0} (json : Json) where
  sanitize_request_lem :
      (req out : ChatCompletionRequest F) (text body : Str) (metadata : Option (DebugMetadata F))
      → sanitize_request json req text metadata ≡ inr (out, body)
      → (out ≡ sanitized json req text metadata) × (encode json out ≡ some body)
  unfolding sanitize_request
  sanitize_request_lem req out text body metadata e =
      elim (Option-cases (encode json (sanitized json req text metadata))) [
        | inl failed ↦ absurd (ground (arith, e, failed))
        | inr (b, made) ↦
            let run : sanitize_request json req text metadata
                ≡ inr (sanitized json req text metadata, b) =
              rw (made, sanitize_request) in
            subst
              (λ (z : ChatCompletionRequest F × Str).
                (z.0 ≡ sanitized json req text metadata) × (encode json z.0 ≡ some z.1))
              (inr-injective _ _ (sym run ∙ e)) (refl, made)
      ]

  module _ {E : Type 0} (fl : Scores F) where
    -- What was retrieved is compiled from the results found, within the settings.
    retrieve_lem :
        (p : Pipeline E F) (s : Settings) (query : Str) (m : DebugMetadata F)
        → retrieve json fl p s query ≡ inr m
        → (m.enabled ≡ true)
          × (m.settings ≡ s)
          × (length m.compiled.text ≤ pos_part s.max_context_chars)
    unfolding retrieve
    retrieve_lem p s query m e = elim (Option-cases p.store) [
      | inl closed ↦ absurd (ground (arith, e, closed))
      | inr (db, opened) ↦
          let asked = rewrite_query p.query_rewriter query in
          let vector = p.embed_query asked in
          let search =
            combine_searches fl (not (is_none vector))
              (elim vector [ none ↦ none | some v ↦ db.search_chunks v s.top_k ])
              (db.search_chunks_keyword asked s.top_k) s.top_k in
          elim (Sum-cases search) [
            | inl (err, failed) ↦ absurd (ground (arith, e, opened, failed))
            | inr (results, found) ↦
                let run : retrieve json fl p s query
                    ≡ inr (record {
                      enabled = true;
                      query = asked;
                      settings = s;
                      compiled = compile_context results s.max_context_chars;
                    }) =
                  rw (opened, found, retrieve) in
                subst
                  (λ (m : DebugMetadata F).
                    (m.enabled ≡ true)
                    × (m.settings ≡ s)
                    × (length m.compiled.text ≤ pos_part s.max_context_chars))
                  (inr-injective _ _ (sym run ∙ e))
                  (refl, refl, (compile_context-fits results s.max_context_chars).0)
          ]
    ]

    -- The context of a request, and what its metadata says of it: nothing, or a context that was
    -- compiled within the settings that the request resolves to.
    pub data IsContext (p : Pipeline E F) (req : ChatCompletionRequest F) (text : Str)
        (metadata : Option (DebugMetadata F)) : Type 0 where
      no_context : text ≡ [] → metadata ≡ none → IsContext p req text metadata
      found_context :
          (m : DebugMetadata F)
          → metadata ≡ some m
          → text ≡ context_text m.compiled.text
          → m.enabled ≡ true
          → m.settings.enabled ≡ true
          → resolve_settings p.defaults req.retrieval ≡ inr m.settings
          → length m.compiled.text ≤ pos_part m.settings.max_context_chars
          → IsContext p req text metadata

    -- A prepared request is the given one under its context, and without its retrieval options;
    -- the body is its encoding.
    pub record IsPrepared (p : Pipeline E F) (req out : ChatCompletionRequest F) (body : Str)
        : Type 0 where
      pub text : Str
      pub metadata : Option (DebugMetadata F)
      pub request : out ≡ sanitized json req text metadata
      pub encoded : encode json out ≡ some body
      pub context : IsContext p req text metadata

    context-IsPrepared :
        (p : Pipeline E F) (req out : ChatCompletionRequest F) (body : Str) (s : Settings)
        (query : Str)
        → resolve_settings p.defaults req.retrieval ≡ inr s
        → s.enabled ≡ true
        → (elim (retrieve json fl p s query) [
          | inl err ↦ inl err
          | inr metadata ↦
              sanitize_request json req (context_text metadata.compiled.text) (some metadata)
        ])
          ≡ inr (out, body)
        → IsPrepared p req out body
    context-IsPrepared p req out body s query resolved on e =
        elim (Sum-cases (retrieve json fl p s query)) [
          | inl (err, failed) ↦ absurd (ground (arith, e, failed))
          | inr (m, found) ↦
              let (same, encoded) =
                sanitize_request_lem req out (context_text m.compiled.text) body (some m)
                  (rw found at e) in
              let (enabled, settings, bound) = retrieve_lem p s query m found in
              record {
                text = context_text m.compiled.text;
                metadata = some m;
                request = same;
                encoded = encoded;
                context =
                    found_context m refl refl enabled
                      (ap (λ (x : Settings). x.enabled) settings ∙ on)
                      (resolved ∙ ap inr (sym settings)) (rw settings bound);
              }
        ]

    pub prepare-IsPrepared :
        (p : Pipeline E F) (req out : ChatCompletionRequest F) (body : Str)
        → prepare json fl p req ≡ inr (out, body)
        → IsPrepared p req out body
    unfolding prepare
    prepare-IsPrepared p req out body e =
        elim (Sum-cases (resolve_settings p.defaults req.retrieval)) [
          | inl (err, failed) ↦ absurd (ground (arith, e, failed))
          | inr (s, resolved) ↦ elim (Bool-cases s.enabled) [
            | inl on ↦
                elim (Option-cases
                  (build_query (λ (m : Message). m.role) (message_text json) req.messages)) [
                    | inl unread ↦ absurd (ground (arith, e, resolved, on, unread))
                    | inr (query, read) ↦
                        context-IsPrepared p req out body s query resolved on
                          (sym (rw (resolved, on, read, prepare)) ∙ e)
                  ]
            | inr off ↦
                let (same, encoded) =
                  sanitize_request_lem req out [] body none
                    (sym (rw (resolved, off, prepare)) ∙ e) in
                record {
                  text = [];
                  metadata = none;
                  request = same;
                  encoded = encoded;
                  context = no_context refl refl;
                }
          ]
        ]
