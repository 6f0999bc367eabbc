-- ===== src/Providers.antt =====
-- internal/providers/host.go and provider.go: the providers that the runtime hosts. A provider is
-- the client that its settings make.
mod Laws
pub mod Single
mod Tests
use rillan.Base.{
  ◌||◌, if◌then◌else◌, not, Option, none, some, List, [], ◌∷◌, ◌⊎◌, inl, inr, Str, str_eq, is_empty,
  is_none, lookup, trim_space, normalize_string,
}
use rillan.Base.Map.{put}
use rillan.Config.{
  RuntimeProviderAdapterConfig, RuntimeProviderHostConfig, OpenAiConfig, AnthropicConfig,
  transport_http, transport_stdio, provider_openai, provider_openai_compatible, provider_anthropic,
  provider_ollama,
}

pub data Provider : Type 0 where
  stdio : List Str → Provider
  openai : OpenAiConfig → Provider
  anthropic : AnthropicConfig → Provider
  ollama : Str → Provider

pub data HostError : Type 0 where
  empty_default no_providers empty_id duplicate_id default_not_found not_found : HostError
  unsupported_transport unsupported_type : HostError

pub record Host : Type 0 where
  pub default_provider_id : Str
  pub providers : List (Str × Provider)

unfoldable pub new_adapter : RuntimeProviderAdapterConfig → HostError ⊎ Provider
new_adapter cfg =
    let transport = normalize_string cfg.transport in
    let type = normalize_string cfg.type in
    if str_eq transport transport_stdio
    then inr (Provider.stdio cfg.command)
    else if not (is_empty transport || str_eq transport transport_http)
    then inl HostError.unsupported_transport
    else if str_eq type provider_openai || str_eq type provider_openai_compatible
    then inr (Provider.openai cfg.openai)
    else if str_eq type provider_anthropic
    then inr (Provider.anthropic cfg.anthropic)
    else if str_eq type provider_ollama
    then inr (Provider.ollama cfg.local_base_url)
    else inl HostError.unsupported_type

-- The loop of `NewHost`, with the providers hosted so far.
unfoldable pub host_all :
    List RuntimeProviderAdapterConfig → List (Str × Provider) → HostError ⊎ List (Str × Provider)
unfolding new_adapter
host_all [] hosted = inr hosted
host_all (cfg ∷ cfgs) hosted =
    let id = trim_space cfg.id in
    if is_empty id
    then inl HostError.empty_id
    else if not (is_none (lookup id hosted))
    then inl HostError.duplicate_id
    else elim (new_adapter cfg) [
      | inl err ↦ inl err
      | inr provider ↦ host_all cfgs (put id provider hosted)
    ]

unfoldable pub new_host : RuntimeProviderHostConfig → HostError ⊎ Host
unfolding host_all
new_host cfg =
    let id = trim_space cfg.default in
    if is_empty id
    then inl HostError.empty_default
    else if is_empty cfg.providers
    then inl HostError.no_providers
    else elim (host_all cfg.providers []) [
      | inl err ↦ inl err
      | inr hosted ↦
          if is_none (lookup id hosted)
          then inl HostError.default_not_found
          else inr (record { default_provider_id = id; providers = hosted })
    ]

-- `Host.Provider`
unfoldable pub provider : Host → Str → HostError ⊎ Provider
provider h id = elim (lookup (trim_space id) h.providers) [
  | none ↦ inl HostError.not_found
  | some p ↦ inr p
]

unfoldable pub default_provider : Host → HostError ⊎ Provider
unfolding provider
default_provider h = provider h h.default_provider_id
