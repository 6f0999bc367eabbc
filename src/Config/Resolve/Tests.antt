-- ===== src/Config/Resolve/Tests.antt =====
-- A registry of one local and one compatible provider, of which the project allows the first.
use rillan.Base.{
  ◌≡◌, refl, true, inl, inr, none, [], ◌∷◌, Str, lit, All, any, str_eq, str_mem, trim_space,
  normalize_string,
}
use rillan.Config.{
  Config, ProjectConfig, LlmProviderConfig, RuntimeProviderHostConfig, provider_ollama,
  provider_openai_compatible, transport_http,
}
use rillan.Config.Samples.{plain_config, plain_project}
use rillan.Secrets.{KeyringError, Keyring, Codec}
use rillan.Config.Resolve.{
  provider_with, resolve_active_llm_provider, resolve_llm_provider_by_id, make_allowlist,
  resolve_adapter, adapter_for, adapters_from, resolve_host,
}
use rillan.Config.Resolve.Host.{IsOffered, resolve_host-IsHosting}

resolving : Unit {0}
unfolding resolve_host adapters_from adapter_for resolve_adapter resolve_llm_provider_by_id
    resolve_active_llm_provider make_allowlist provider_with str_eq str_mem lit trim_space
    normalize_string
resolving = tt

abbrev empty_ring : Keyring Unit
empty_ring = record {
  get = λ service account s. inl KeyringError.missing;
  set = λ service account value s. inr s;
  delete = λ service account s. inl KeyringError.missing;
}

abbrev no_json : Codec
no_json = record { marshal = λ credential. none; unmarshal = λ value. none }

abbrev provider_at : Str → Str → LlmProviderConfig
provider_at id backend = record {
  id = id;
  preset = [];
  backend = backend;
  transport = transport_http;
  endpoint = lit "http://127.0.0.1:11434";
  command = [];
  auth_strategy = [];
  default_model = [];
  model_pins = [];
  capabilities = [];
  credential_ref = [];
}

abbrev config : Config
config = record plain_config {
  llms = record {
    default = lit "near";
    providers =
        provider_at (lit "far") provider_openai_compatible
        ∷ provider_at (lit "near") provider_ollama
        ∷ [];
  };
}

abbrev project : ProjectConfig
project = record plain_project {
  providers = record { llm_default = []; llm_allowed = lit " near" ∷ []; mcp_enabled = [] };
}

hosted :
    (host : RuntimeProviderHostConfig) × (resolve_host empty_ring no_json tt config project
      ≡ inr host)
    × (host.default ≡ lit "near")
unfolding resolving
hosted = (_, refl, refl)

resolve_host-IsHosting_example :
    All (IsOffered (make_allowlist (lit " near" ∷ []))) hosted.0.providers
    × (trim_space hosted.0.default ≡ hosted.0.default
        → any (λ a. str_eq (trim_space a.id) hosted.0.default) hosted.0.providers ≡ true)
resolve_host-IsHosting_example =
    resolve_host-IsHosting empty_ring no_json tt config refl project hosted.0 hosted.1
