-- ===== src/Handler/Remote.antt =====
-- A request that goes to a remote provider with some context, and parts of the way of others.
use rillan.Base.{
  arith, ◌≡◌, ◌≢◌, ◌↔◌, ◌≤◌, refl, ℕ, pos, true, false, none, some, [], ◌∷◌, ◌++◌, Str, lit, length,
  ltb_ℤ, str_mem, if◌then◌else◌,
}
use rillan.Base.Decimal.{decimal, decimal_ℤ}
use rillan.Config.Samples.{plain_project}
use rillan.Policy.{EvaluationResult, Verdict}
use rillan.Providers.{Provider}
use rillan.Retrieval.{DebugMetadata, resolve_settings, build_query, texts_of}
use rillan.Retrieval.Context.{
  compile_context, compile_from, fit_section, trim_section, reference_of,
}
use rillan.Retrieval.Prepare.{
  Pipeline, needs_preparation, prepare, retrieve, combine_searches, fuse_search_results, limited,
  rewrite_query, context_text, sanitize_request,
}
use rillan.Chat.{ChatCompletionRequest, message_text}
use rillan.Handler.Types.{ChatRuntime, ChatCompletionsHandler, Selection, is_remote}
use rillan.Handler.Plan.{apply_retrieval_plan, extract_debug}
use rillan.Handler.Proxy.{
  Output, read_error, body_bytes, values, hop_by_hop_names, copy_headers, copy_loop, copy_body,
  copy_body_and_hash,
}
use rillan.Handler.Proxy.Copied.{ending, gathered, copy_headers-values, copy_body_and_hash-IsCopied}
use rillan.Handler.Serve.Guarded.{IsOutbound}
use rillan.Handler.Serve.Capped.{outbound-IsCapped}
use rillan.Handler.Tests.{serving, world, post, client, answer, runtime_of, secret_project, host}
use rillan.Handler.Route.{resolve_route, available_route_candidates, decision_input}
use rillan.Handler.Route.Routed.{IsRoutedTo, resolve_route-IsRoutedTo}
use rillan.Routing.Types.{Candidate}
use rillan.Routing.Admit.{IsAdmitted}
use mathlib.Core.List.{Memᴰ}

abbrev pipeline : Pipeline ℕ ℕ
pipeline = record {
  defaults = record { enabled = true; top_k = pos 4; max_context_chars = pos 6000 };
  query_rewriter = none;
  embed_query = λ query. some 0;
  store = some (record {
    search_chunks = λ v limit. some [];
    search_chunks_keyword = λ query limit. some (
        record {
          chunk_id = lit "1";
          document_path = lit "a";
          ordinal = pos 0;
          start_line = pos 1;
          end_line = pos 2;
          content = lit "text";
          score = 0;
        }
        ∷ []);
  });
}

abbrev far_runtime : ChatRuntime ℕ ℕ
far_runtime = record {
  provider = Provider.ollama (lit "u");
  provider_host = none;
  pipeline = some pipeline;
  project = plain_project;
  system = none;
  classifier = none;
  route_catalog = record { candidates = []; by_id = []; allowed = false };
  route_status = record { candidates = []; by_id = [] };
}

abbrev far_handler : ChatCompletionsHandler ℕ ℕ
far_handler = record { own = far_runtime; snapshot = none; rules = [] }

retrieving : Unit {0}
unfolding serving resolve_settings build_query texts_of compile_context compile_from fit_section
    trim_section reference_of needs_preparation prepare retrieve combine_searches
    fuse_search_results limited rewrite_query context_text sanitize_request message_text
    apply_retrieval_plan decimal decimal_ℤ
retrieving = tt

way :
    (given : ChatCompletionRequest ℕ) × (given_body : Str) × (preflight : EvaluationResult
      (ChatCompletionRequest ℕ))
    × (selection : Selection) × (request : ChatCompletionRequest ℕ) × (body : Str)
    × (m : DebugMetadata ℕ) × IsOutbound world far_handler far_runtime post given given_body
        preflight selection request body
    × (preflight.verdict ≡ Verdict.allow)
    × (is_remote selection ≡ true)
    × (extract_debug request.metadata ≡ some m)
unfolding retrieving
way = (
  _,
  _,
  _,
  _,
  _,
  _,
  _,
  record { admitted = refl; evaluated = refl; routed = refl; prepared = refl },
  refl,
  refl,
  refl,
)

outbound-IsCapped_example :
    (length way.6.compiled.text ≤ 1200) × (ltb_ℤ (pos 2) way.6.settings.top_k ≡ false)
outbound-IsCapped_example =
    outbound-IsCapped world far_handler far_runtime post way.0 way.1 way.2 way.3 way.4 way.5 way.7
      way.8 way.9 way.6 way.10

copy_body_and_hash-IsCopied_example :
    let start : Output = record { written = []; flushes = 0 } in
    let (final, hash, err) = copy_body_and_hash client (λ text. text) answer.body true start in
    (copy_loop client 3 answer.body start ≡ some (copy_body client answer.body true start))
    × ((rest : Str) × (body_bytes answer.body ≡ final.written ++ rest))
    × (err ≡ none
        → (final.written ≡ body_bytes answer.body)
          × (ending answer.body ≡ none)
          × (hash ≡ final.written))
    × (err ≢ none → hash ≡ [])
    × (((before bytes : Str) → client.accepts before bytes ≡ true)
        → err ≡ read_error (ending answer.body))
copy_body_and_hash-IsCopied_example =
    copy_body_and_hash-IsCopied client (λ text. text) answer.body 3 refl (omega arith)

copy_headers-values_example :
    values (lit "Etag") (copy_headers (λ key. key) [] answer.header)
    ≡ values (lit "Etag") []
      ++ (if str_mem (lit "Etag") hop_by_hop_names
          then []
          else gathered (λ key. key) (lit "Etag") answer.header)
copy_headers-values_example = copy_headers-values (λ key. key) [] answer.header (lit "Etag")

resolve_route-IsRoute_example :
    let route = resolve_route (runtime_of secret_project) [] [] Verdict.local_only none in
    ((route.1 ≡ none) ↔ (
      (c : Candidate) × Memᴰ c (available_route_candidates (runtime_of secret_project))
      × IsAdmitted (decision_input (runtime_of secret_project) [] [] Verdict.local_only none) c))
    × (route.1 ≡ none
        → IsRoutedTo host (runtime_of secret_project) refl [] [] Verdict.local_only none route.0)
resolve_route-IsRoute_example =
    resolve_route-IsRoutedTo host (runtime_of secret_project) refl [] [] Verdict.local_only none

-- A hop-by-hop header is not passed on.
headers_kept : copy_headers (λ key. key) [] answer.header ≡ (lit "Etag", lit "y" ∷ []) ∷ []
unfolding serving
headers_kept = refl
