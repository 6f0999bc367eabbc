-- ===== src/Config/Validate/Tests.antt =====
-- A plain configuration, and hosts of brackets.
use rillan.Base.{
  ◌≡◌, refl, Bool, false, Option, none, some, [], ◌∷◌, Str, lit, is_empty, ltb_ℤ, str_eq, to_lower,
  trim_space, normalize_string,
}
use rillan.Config.{
  Config, ResolvedLlmProvider, schema_version_v2, transport_stdio, bundled_llm_provider_preset,
}
use rillan.Config.Samples.{plain_config}
use rillan.Config.Resolve.{resolve_active_llm_provider, provider_with}
use rillan.Config.Validate.{
  ValidationError, ValidationMode, validate_for_mode, first_error, validate_mode, validate_serve,
  validate_active, trim_host, trim_left_brackets, host_requires_non_loopback_opt_in,
  is_wildcard_bind_host,
}
use rillan.Config.Validate.Bound.{IsSafe, IsActive, validate_for_mode-IsSafe}

-- Every address is one beyond the loopback.
abbrev parse_ip : Str → Option Bool
parse_ip text = some false

abbrev at_host : Str → Config
at_host host = record (plain_config) {
  server = record (plain_config.server) { host = host };
  runtime = record { vector_store_mode = lit "embedded"; local_model_base_url = [] };
  knowledge_graph = record (plain_config.knowledge_graph) { auto_update = lit "none" };
  llms = record {
    default = lit "cmd";
    providers =
        record {
          id = lit "cmd";
          preset = [];
          backend = lit "ollama";
          transport = transport_stdio;
          endpoint = [];
          command = lit "run" ∷ [];
          auth_strategy = [];
          default_model = [];
          model_pins = [];
          capabilities = [];
          credential_ref = [];
        }
        ∷ [];
  };
}

validating : Unit {0}
unfolding validate_for_mode first_error validate_mode validate_serve validate_active trim_host
    trim_left_brackets host_requires_non_loopback_opt_in is_wildcard_bind_host
    resolve_active_llm_provider provider_with bundled_llm_provider_preset lit str_eq to_lower
    trim_space normalize_string
validating = tt

-- Nothing but brackets counts as a loopback, and is accepted without authentication.
brackets : validate_for_mode parse_ip (at_host (lit "[]")) ValidationMode.serve ≡ none
unfolding validating
brackets = refl

exposed :
    validate_for_mode parse_ip (at_host (lit "0.0.0.0")) ValidationMode.serve
    ≡ some (ValidationError.field (lit "server.allow_non_loopback_bind"))
unfolding validating
exposed = refl

validate_for_mode-IsSafe_example :
    IsSafe parse_ip (at_host (lit "[]"))
    × (ValidationMode.serve ≡ ValidationMode.serve
        → ltb_ℤ (at_host (lit "[]")).schema_version schema_version_v2 ≡ false
        → is_empty (at_host (lit "[]")).llms.providers ≡ false
        → (active : ResolvedLlmProvider) × IsActive (at_host (lit "[]")) active)
validate_for_mode-IsSafe_example =
    validate_for_mode-IsSafe parse_ip (at_host (lit "[]")) ValidationMode.serve brackets
