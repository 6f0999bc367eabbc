-- ===== src/Config/Resolve.antt =====
-- internal/config/load.go, from `ResolveActiveLLMProvider` on: which providers the runtime hosts,
-- with their credentials. The keyring is that of Secrets.
pub mod Host
pub mod Tests
use rillan.Base.{
  ltb_ℤ, Bool, true, false, not, ◌&&◌, ◌||◌, if◌then◌else◌, Option, none, some, List, [], ◌∷◌, ◌⊎◌,
  inl, inr, Str, lit, any, keep, find, map, str_eq, str_mem, is_empty, trim_space, normalize_string,
}
use rillan.Config.{
  Config, ProjectConfig, LlmProviderConfig, ResolvedLlmProvider, RuntimeProviderAdapterConfig,
  RuntimeProviderHostConfig, schema_version_v2, transport_http, transport_stdio, provider_openai,
  provider_openai_compatible, provider_anthropic, provider_ollama, auth_none, auth_api_key,
}
use rillan.Secrets.{
  Binding, Credential, SecretError, Keyring, Codec, load, resolve_bearer, validate_binding,
}

pub data ResolveError : Type 0 where
  empty_default not_allowed active_not_found no_providers : ResolveError
  empty_command unsupported_auth_strategy missing_credential_ref no_api_key : ResolveError
  empty_endpoint unsupported_backend : ResolveError
  provider_not_found : Str → ResolveError
  secret : SecretError → ResolveError

abbrev pub default_provider_id : Str
default_provider_id = lit "default"

-- The entry of the registry that a trimmed identifier names, as it is resolved.
abbrev pub resolved_of : LlmProviderConfig → ResolvedLlmProvider
resolved_of provider = record {
  id = provider.id;
  preset = trim_space provider.preset;
  backend = trim_space provider.backend;
  transport = trim_space provider.transport;
  endpoint = trim_space provider.endpoint;
  command = provider.command;
  auth_strategy = trim_space provider.auth_strategy;
  default_model = trim_space provider.default_model;
  model_pins = provider.model_pins;
  capabilities = provider.capabilities;
  credential_ref = trim_space provider.credential_ref;
}

-- The loop over the providers: the first one with the identifier.
unfoldable pub provider_with : Str → List LlmProviderConfig → Option LlmProviderConfig
provider_with id providers = find (λ p. str_eq (trim_space p.id) id) providers

abbrev pub selected_id : Config → ProjectConfig → Str
selected_id cfg project =
    let override = trim_space project.providers.llm_default in
    if not (is_empty override) then override else trim_space cfg.llms.default

unfoldable pub resolve_active_llm_provider :
    Config → ProjectConfig → ResolveError ⊎ ResolvedLlmProvider
unfolding provider_with
resolve_active_llm_provider cfg project =
    let id = selected_id cfg project in
    let allowed = project.providers.llm_allowed in
    if is_empty id
    then inl ResolveError.empty_default
    else if not (is_empty allowed)
        && not (any (λ candidate. str_eq (trim_space candidate) id) allowed)
    then inl ResolveError.not_allowed
    else elim (provider_with id cfg.llms.providers) [
      | none ↦ inl ResolveError.active_not_found
      | some provider ↦ inr (resolved_of provider)
    ]

abbrev pub is_legacy : Config → Bool
is_legacy cfg = ltb_ℤ cfg.schema_version schema_version_v2 || is_empty cfg.llms.providers

unfoldable pub default_legacy_provider_endpoint : Config → Str
default_legacy_provider_endpoint cfg =
    let type = normalize_string cfg.provider.type in
    if str_eq type provider_openai
    then trim_space cfg.provider.openai.base_url
    else if str_eq type provider_anthropic
    then trim_space cfg.provider.anthropic.base_url
    else trim_space cfg.provider.local_base_url

unfoldable pub default_legacy_provider_auth_strategy : Config → Str
default_legacy_provider_auth_strategy cfg =
    let type = normalize_string cfg.provider.type in
    if str_eq type provider_openai || str_eq type provider_anthropic
    then auth_api_key
    else auth_none

unfoldable pub resolve_llm_provider_by_id : Config → Str → ResolveError ⊎ ResolvedLlmProvider
unfolding provider_with default_legacy_provider_endpoint default_legacy_provider_auth_strategy
resolve_llm_provider_by_id cfg provider_id =
    let id = trim_space provider_id in
    if is_legacy cfg
    then if is_empty id || str_eq id default_provider_id
      then inr (record {
        id = default_provider_id;
        preset = [];
        backend = trim_space cfg.provider.type;
        transport = transport_http;
        endpoint = default_legacy_provider_endpoint cfg;
        command = [];
        auth_strategy = default_legacy_provider_auth_strategy cfg;
        default_model = [];
        model_pins = [];
        capabilities = [];
        credential_ref = [];
      })
      else inl (ResolveError.provider_not_found provider_id)
    else elim (provider_with id cfg.llms.providers) [
      | none ↦ inl (ResolveError.provider_not_found provider_id)
      | some provider ↦ inr (resolved_of provider)
    ]

unfoldable pub make_allowlist : List Str → List Str
make_allowlist values = keep (λ id. not (is_empty id)) (map trim_space values)

abbrev pub binding_of : ResolvedLlmProvider → Binding
binding_of selected = record {
  endpoint = selected.endpoint;
  auth_strategy = selected.auth_strategy;
  issuer = [];
  audience = [];
}

-- The adapter of a provider before its backend's settings.
abbrev pub adapter_base : ResolvedLlmProvider → RuntimeProviderAdapterConfig
adapter_base selected = record {
  id = selected.id;
  preset = selected.preset;
  type = selected.backend;
  transport = selected.transport;
  command = selected.command;
  openai = record { base_url = []; api_key = [] };
  anthropic = record { enabled = false; base_url = []; api_key = [] };
  local_base_url = [];
}

module _ {S : Type 0} (ring : Keyring S) (json : Codec) (s : S) where
  unfoldable pub resolve_server_auth_bearer : Config → SecretError ⊎ Str
  resolve_server_auth_bearer cfg =
      resolve_bearer ring json cfg.server.auth.session_ref
        (record {
          endpoint = [];
          auth_strategy = trim_space cfg.server.auth.auth_strategy;
          issuer = [];
          audience = [];
        })
        s

  unfoldable pub resolve_runtime_provider_bearer : ResolvedLlmProvider → SecretError ⊎ Str
  resolve_runtime_provider_bearer selected =
      if str_eq selected.auth_strategy auth_none || is_empty selected.credential_ref
      then inr []
      else resolve_bearer ring json selected.credential_ref (binding_of selected) s

  -- `validateRuntimeProviderCredentialBinding` has the same body as `validateBinding`.
  unfoldable pub resolve_runtime_provider_api_key : ResolvedLlmProvider → ResolveError ⊎ Str
  resolve_runtime_provider_api_key selected =
      if not (str_eq selected.auth_strategy auth_api_key)
      then inl ResolveError.unsupported_auth_strategy
      else if is_empty (trim_space selected.credential_ref)
      then inl ResolveError.missing_credential_ref
      else elim (load ring json selected.credential_ref s) [
        | inl err ↦ inl (ResolveError.secret err)
        | inr credential ↦ elim (validate_binding credential (binding_of selected)) [
          | some err ↦ inl (ResolveError.secret err)
          | none ↦
              if is_empty (trim_space credential.api_key)
              then inl ResolveError.no_api_key
              else inr credential.api_key
        ]
      ]

  unfoldable pub resolve_adapter :
      Config → ResolvedLlmProvider → ResolveError ⊎ RuntimeProviderAdapterConfig
  unfolding resolve_runtime_provider_bearer resolve_runtime_provider_api_key
  resolve_adapter cfg selected =
      let adapter = adapter_base selected in
      let strategy = normalize_string selected.auth_strategy in
      let trimmed = trim_space selected.endpoint in
      let base_url = if is_empty trimmed then trim_space cfg.local_model.base_url else trimmed in
      if str_eq selected.transport transport_stdio
      then if is_empty selected.command
        then inl ResolveError.empty_command
        else if not (is_empty strategy) && not (str_eq strategy auth_none)
        then inl ResolveError.unsupported_auth_strategy
        else inr adapter
      else if str_eq selected.backend provider_openai_compatible
      then elim (resolve_runtime_provider_bearer selected) [
        | inl err ↦ inl (ResolveError.secret err)
        | inr key ↦
            inr (record adapter { openai = record { base_url = selected.endpoint; api_key = key } })
      ]
      else if str_eq selected.backend provider_anthropic
      then elim (resolve_runtime_provider_api_key selected) [
        | inl err ↦ inl err
        | inr key ↦ inr (record adapter {
          anthropic = record { enabled = true; base_url = selected.endpoint; api_key = key };
        })
      ]
      else if str_eq selected.backend provider_ollama
      then if is_empty base_url
        then inl ResolveError.empty_endpoint
        else inr (record adapter { local_base_url = base_url })
      else inl ResolveError.unsupported_backend

  -- The adapter of a provider of the registry, in the loop of the host.
  unfoldable pub adapter_for : Config → Str → ResolveError ⊎ RuntimeProviderAdapterConfig
  unfolding resolve_llm_provider_by_id resolve_adapter
  adapter_for cfg provider_id = elim (resolve_llm_provider_by_id cfg provider_id) [
    | inl err ↦ inl err
    | inr resolved ↦ resolve_adapter cfg resolved
  ]

  -- The loop of `ResolveRuntimeProviderHostConfig`: a provider that fails is left out, unless it
  -- is the selected one.
  unfoldable pub adapters_from :
      Config
      → (allowed : List Str) → (selected : Str) → List LlmProviderConfig
      → ResolveError ⊎ List RuntimeProviderAdapterConfig
  unfolding adapter_for
  adapters_from cfg allowed selected [] = inr []
  adapters_from cfg allowed selected (provider ∷ providers) =
      let rest = adapters_from cfg allowed selected providers in
      let id = trim_space provider.id in
      if is_empty id || (not (is_empty allowed) && not (str_mem id allowed))
      then rest
      else elim (adapter_for cfg id) [
        | inl err ↦ if str_eq id selected then inl err else rest
        | inr adapter ↦ elim rest [ inl err ↦ inl err | inr adapters ↦ inr (adapter ∷ adapters) ]
      ]

  unfoldable pub resolve_host : Config → ProjectConfig → ResolveError ⊎ RuntimeProviderHostConfig
  unfolding resolve_active_llm_provider adapters_from make_allowlist
  resolve_host cfg project =
      if is_legacy cfg
      then inr (record {
        default = default_provider_id;
        providers =
            record {
              id = default_provider_id;
              preset = [];
              type = cfg.provider.type;
              transport = [];
              command = [];
              openai = cfg.provider.openai;
              anthropic = cfg.provider.anthropic;
              local_base_url = cfg.provider.local_base_url;
            }
            ∷ [];
      })
      else elim (resolve_active_llm_provider cfg project) [
        | inl err ↦ inl err
        | inr selected ↦
            elim (adapters_from cfg (make_allowlist project.providers.llm_allowed) selected.id
              cfg.llms.providers) [
                | inl err ↦ inl err
                | inr [] ↦ inl ResolveError.no_providers
                | inr (adapter ∷ adapters) ↦
                    inr (record { default = selected.id; providers = adapter ∷ adapters })
              ]
      ]
