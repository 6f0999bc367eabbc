-- ===== src/Handler/Tests.antt =====
-- A trade secret with a token in it, and one local provider to serve it.
use rillan.Base.{
  ℕ, ◌≡◌, refl, inr, true, false, none, some, [], ◌∷◌, Str, lit, All, Ordering, map, str_eq,
  str_compare, str_mem, lookup, trim_space, normalize_string, join,
}
use rillan.Base.Sort.{sort_func}
use rillan.Base.Map.{put}
use rillan.Config.{ProjectConfig}
use rillan.Config.Samples.{plain_project}
use rillan.Policy.{FindingAction, merge_runtime_policy}
use rillan.Policy.Scanner.{
  Rule, scan, selected_findings, matches_from, compare_match, select_from, redact_all,
}
use rillan.Providers.{Provider, Host, provider}
use rillan.Retrieval.Prepare.{Scores}
use rillan.Routing.Types.{Location, Candidate}
use rillan.Chat.{Message, Json, has_field}
use rillan.Handler.Proxy.{
  Client, chunk, last, copy_body_and_hash, copy_body, copy_stream, body_bytes, copy_headers,
  add_values, add_header, is_hop_by_hop_header,
}
use rillan.Handler.Types.{
  ChatRuntime, ChatCompletionsHandler, current_runtime, HttpRequest, World, Response, Sent, Reply,
  provider_key, provider_name, is_local, is_remote,
}
use rillan.Handler.Serve.{
  serve_http, serve_admitted, serve_routed, serve_egress, release, admit, classify,
  prepare_outbound, note_retrieval,
}
use rillan.Handler.Serve.Deliver.{
  deliver, deliver_failure, deliver_response, record_event, hash_bytes,
}
use rillan.Handler.Route.{resolve_route, select_provider, available_route_candidates}
use rillan.Handler.Plan.{extract_debug, source_refs_from_request}
use rillan.Handler.Prompt.{
  apply_project_prompt_context, build_project_prompt_messages, skill_messages, instruction_messages,
}
use rillan.Chat.Encode.{
  encode, decode, marshal_request, marshal_message, marshal_json_object, field_text, raw_or_null,
  without,
}
use rillan.Chat.Validate.{
  validate_chat_completion_request, validate_messages, validate_message_content, validate_text,
  validate_options, valid_role,
}
use rillan.Chat.Features.{
  required_capabilities, request_uses_tools, request_uses_multimodal, message_uses_multimodal,
  decode_content_parts, lists_tools, chooses_tool,
}
use rillan.Policy.Evaluator.{
  evaluate, runtime_policy, project_classification, sync_request_from_body,
}
use rillan.Base.Sort.Order.{true_first, then_by}
use rillan.Routing.Decide.{
  decide, sorted_states, collect, evaluate_candidate, apply_model_affinity, model_match_label,
  compare_candidate_state, normalize_preference, project_preference, resolve_preference,
  model_matches, policy_eligible, route_preference_score, capability_weights, strength_of,
  task_strength, dedup_normalized, normalize_capabilities, missing_capabilities, reject_mismatch,
}
use rillan.Handler.Serve.Guarded.{IsGuarded, IsAccounted}
use rillan.Handler.Serve.Guarded.Served.{serve_http-IsGuarded, serve_http-IsAccounted}

abbrev pub message : Str → Message
message text = record { role = lit "user"; content = text; extra = [] }

-- A codec in which an object is the text of its one message.
abbrev pub codec : Json
codec = record {
  is_valid = λ _. true;
  string_of = λ text. some text;
  strings_of = λ _. none;
  part_types = λ _. none;
  alias_of = λ text.
      some
        (record { model = lit "m"; messages = message text ∷ []; stream = true; retrieval = none });
  object_of = λ _. some [];
  quote = λ text. text;
  options_text = λ _. [];
  compact = λ text. some text;
  marshal_list = λ f ms. some (lit "[]");
}

abbrev pub scores : Scores ℕ
scores = record {
  zero_score = 0;
  vector_weight = λ n. n;
  keyword_weight = λ n. n;
  add_score = λ a b. a;
  compare_down = λ a b. Ordering.eq;
}

abbrev pub client : Client
client = record { accepts = λ _ _. true; is_flusher = true; io_copy = λ body out. (out, none) }

abbrev pub answer : Response
answer = record {
  status_code = 200;
  header = (lit "Te", lit "x" ∷ []) ∷ (lit "Etag", lit "y" ∷ []) ∷ [];
  stream_type = false;
  body = chunk (lit "ab") (chunk [] (last (lit "c") none));
}

abbrev pub world : World ℕ
world = record {
  json = codec;
  scores = scores;
  canonical = λ key. key;
  sha256 = λ text. b'#' ∷ text;
  short_hash = λ text. text;
  read_skill = λ _. none;
  client = client;
  recorder = some (λ events event. true);
  send = λ p request body. inr answer;
}

abbrev pub near : Candidate
near = record {
  id = lit "near";
  backend = lit "ollama";
  preset = [];
  transport = [];
  endpoint = [];
  default_model = [];
  model_pins = [];
  capabilities = [];
  location = Location.local;
}

abbrev pub host : Host
host = record {
  default_provider_id = lit "near";
  providers = (lit "near", Provider.ollama (lit "u")) ∷ [];
}

abbrev pub runtime_of : ProjectConfig → ChatRuntime ℕ ℕ
runtime_of project = record {
  provider = Provider.ollama (lit "u");
  provider_host = some host;
  pipeline = none;
  project = project;
  system = none;
  classifier = none;
  route_catalog = record { candidates = near ∷ []; by_id = []; allowed = false };
  route_status = record { candidates = []; by_id = [] };
}

abbrev pub secret_project : ProjectConfig
secret_project = record (plain_project) { classification = lit "trade_secret" }

-- A rule that finds the second byte of any text.
abbrev pub rule : Rule
rule = record {
  id = lit "r";
  category = lit "token";
  action = FindingAction.redact;
  pattern = λ text. (1, 2) ∷ [];
  replacement = lit "*";
}

abbrev pub handler : ChatCompletionsHandler ℕ ℕ
handler = record { own = runtime_of secret_project; snapshot = none; rules = rule ∷ [] }

abbrev pub post : HttpRequest
post = record { method = lit "POST"; id = lit "1"; readable = true; body = lit "hi" }

serve_http-IsGuarded_example :
    All
      (IsGuarded world handler (current_runtime handler) post)
      (serve_http world handler post).1.sent
serve_http-IsGuarded_example = serve_http-IsGuarded world handler post

serve_http-IsAccounted_example :
    IsAccounted world (serve_http world handler post).0 (serve_http world handler post).1
serve_http-IsAccounted_example = serve_http-IsAccounted world handler post

unfoldable pub serving : Unit {0}
unfolding serve_http serve_admitted serve_routed serve_egress release admit classify
    prepare_outbound note_retrieval deliver deliver_failure deliver_response record_event hash_bytes
    current_runtime provider_key provider_name is_local is_remote resolve_route select_provider
    available_route_candidates copy_body_and_hash copy_body copy_stream body_bytes copy_headers
    add_values add_header is_hop_by_hop_header extract_debug source_refs_from_request
    apply_project_prompt_context build_project_prompt_messages skill_messages instruction_messages
    encode decode marshal_request marshal_message marshal_json_object field_text raw_or_null without
    validate_chat_completion_request validate_messages validate_message_content validate_text
    validate_options valid_role has_field required_capabilities request_uses_tools
    request_uses_multimodal message_uses_multimodal decode_content_parts lists_tools chooses_tool
    evaluate runtime_policy merge_runtime_policy project_classification sync_request_from_body scan
    selected_findings matches_from compare_match select_from redact_all decide sorted_states collect
    evaluate_candidate apply_model_affinity model_match_label compare_candidate_state
    normalize_preference project_preference resolve_preference model_matches policy_eligible
    route_preference_score capability_weights strength_of task_strength dedup_normalized
    normalize_capabilities missing_capabilities reject_mismatch true_first then_by sort_func
    provider lookup put lit str_eq str_mem str_compare trim_space normalize_string join
serving = tt

-- The secret goes to the local provider, with the token redacted, and comes back as it was sent.
delivered_answer : (serve_http world handler post).0 ≡ Reply.relayed 200 (lit "abc")
unfolding serving
delivered_answer = refl

sent_bodies :
    map (λ (s : Sent ℕ). s.selection.provider_id) (serve_http world handler post).1.sent
    ≡ lit "near" ∷ []
unfolding serving
sent_bodies = refl
