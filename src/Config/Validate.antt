-- ===== src/Config/Validate.antt =====
-- internal/config/validate.go: the configurations that are accepted. An error names its field, as
-- the source's messages do. An address is parsed by net.ParseIP, which is the parameter
-- `parse_ip`: none if the text is no address, and else whether the address is a loopback.
mod Errors
mod Project
mod Settings
pub mod Bound
mod Tests
use rillan.Base.{
  ℕ, suc, ℤ, pos, ltb_ℤ, Bool, true, false, not, ◌&&◌, ◌||◌, ◌==◌, if◌then◌else◌, Option, none,
  some, List, [], ◌∷◌, ◌⊎◌, inl, inr, is_empty, is_none, any, reverse, Str, lit, str_eq, to_lower,
  trim_space, normalize_string,
}
use rillan.Config.{
  Config, ProjectConfig, SystemConfig, ProjectSource, LlmProviderConfig, ResolvedLlmProvider,
  schema_version_v2, transport_http, transport_stdio, provider_openai, provider_anthropic,
  provider_ollama, auth_api_key, auth_browser_oidc, auth_device_oidc, open_source, internal,
  proprietary, trade_secret, prefer_auto, prefer_local, prefer_cloud, prefer_local_only,
  bundled_llm_provider_preset,
}
use rillan.Config.Resolve.{ResolveError, resolve_active_llm_provider}
unfoldable pub use Errors.*
unfoldable pub use Project.*
unfoldable pub use Settings.*

-- A mode that the source does not name is `other`.
pub data ValidationMode : Type 0 where
  serve index status other : ValidationMode

-- `strings.Trim(s, "[]")`
unfoldable pub trim_left_brackets : Str → Str
trim_left_brackets [] = []
trim_left_brackets (c ∷ s) =
    let rest = trim_left_brackets s in if c == b'[' || c == b']' then rest else c ∷ s

unfoldable pub trim_host : Str → Str
unfolding trim_left_brackets
trim_host host = reverse (trim_left_brackets (reverse (trim_left_brackets (trim_space host))))

unfoldable pub is_wildcard_bind_host : Str → Bool
unfolding trim_host
is_wildcard_bind_host host =
    str_eq (trim_host host) (lit "0.0.0.0") || str_eq (trim_host host) (lit "::")

-- The tests of a provider that is active when the daemon serves.
unfoldable pub validate_active : Config → ResolvedLlmProvider → Option ValidationError
unfolding first_error
validate_active cfg active =
    let is_http = str_eq active.transport transport_http in
    let is_stdio = str_eq active.transport transport_stdio in
    let is_ollama = str_eq (normalize_string active.backend) provider_ollama in
    first_error (
      (is_blank active.backend, ValidationError.field (lit "backend"))
      ∷ (
        is_http
            && (is_blank active.endpoint && (not is_ollama || is_blank cfg.local_model.base_url)),
        ValidationError.field (lit "endpoint"),
      )
      ∷ (is_stdio && is_empty active.command, ValidationError.field (lit "command"))
      ∷ (not (is_http || is_stdio), ValidationError.field (lit "transport"))
      ∷ [])

-- A preset that is named and not bundled.
abbrev pub has_unknown_preset : LlmProviderConfig → Bool
has_unknown_preset provider =
    not (is_blank provider.preset)
    && is_none (bundled_llm_provider_preset (trim_space provider.preset))

-- The case of `ValidationModeServe`.
unfoldable pub validate_serve : Config → Option ValidationError
unfolding validate_active first_error
validate_serve cfg =
    if not (ltb_ℤ cfg.schema_version schema_version_v2) && not (is_empty cfg.llms.providers)
    then before
        (first_error (
          (is_blank cfg.llms.default, ValidationError.field (lit "llms.default"))
          ∷ (any has_unknown_preset cfg.llms.providers, ValidationError.field (lit "preset"))
          ∷ []))
        (elim (resolve_active_llm_provider cfg default_project_config) [
          | inl err ↦ some (ValidationError.resolution err)
          | inr active ↦ validate_active cfg active
        ])
    else if str_eq (normalize_string cfg.provider.type) provider_openai
    then first_error (
        (
          is_empty cfg.provider.openai.api_key,
          ValidationError.field (lit "provider.openai.api_key"),
        )
        ∷ [])
    else if str_eq (normalize_string cfg.provider.type) provider_anthropic
    then first_error (
        (
          not cfg.provider.anthropic.enabled,
          ValidationError.field (lit "provider.anthropic.enabled"),
        )
        ∷ (
          is_empty cfg.provider.anthropic.api_key,
          ValidationError.field (lit "provider.anthropic.api_key"),
        )
        ∷ [])
    else some (ValidationError.field (lit "provider.type"))

module _ (parse_ip : Str → Option Bool) where
  unfoldable pub host_requires_non_loopback_opt_in : Str → Bool
  unfolding trim_host
  host_requires_non_loopback_opt_in host =
      let trimmed = trim_host host in
      if is_empty trimmed || str_eq (to_lower trimmed) (lit "localhost")
      then false
      else elim (parse_ip trimmed) [ none ↦ true | some is_loopback ↦ not is_loopback ]

  -- The tests of `ValidateForMode` that concern the server.
  abbrev pub server_checks : Config → Checks
  server_checks cfg =
      let exposed = host_requires_non_loopback_opt_in cfg.server.host in
      (is_empty cfg.server.host, ValidationError.field (lit "server.host"))
      ∷ (
        ltb_ℤ cfg.server.port (pos 1) || ltb_ℤ (pos 65535) cfg.server.port,
        ValidationError.field (lit "server.port"),
      )
      ∷ (
        is_other cfg.server.log_level (lit "debug" ∷ lit "info" ∷ lit "warn" ∷ lit "error" ∷ []),
        ValidationError.field (lit "server.log_level"),
      )
      ∷ (
        is_other cfg.runtime.vector_store_mode (lit "embedded" ∷ []),
        ValidationError.field (lit "runtime.vector_store_mode"),
      )
      ∷ (
        cfg.server.auth.enabled
            && is_other cfg.server.auth.auth_strategy
                (auth_api_key ∷ auth_browser_oidc ∷ auth_device_oidc ∷ []),
        ValidationError.field (lit "server.auth.auth_strategy"),
      )
      ∷ (
        cfg.server.auth.enabled && is_blank cfg.server.auth.session_ref,
        ValidationError.field (lit "server.auth.session_ref"),
      )
      ∷ (
        exposed && not cfg.server.allow_non_loopback_bind,
        ValidationError.field (lit "server.allow_non_loopback_bind"),
      )
      ∷ (exposed && not cfg.server.auth.enabled, ValidationError.field (lit "server.auth.enabled"))
      ∷ (
        exposed && not (is_wildcard_bind_host cfg.server.host),
        ValidationError.field (lit "server.host"),
      )
      ∷ []

-- The last switch of `ValidateForMode`.
unfoldable pub validate_mode : Config → ValidationMode → Option ValidationError
unfolding validate_serve
validate_mode cfg ValidationMode.serve = validate_serve cfg
validate_mode cfg ValidationMode.index =
    if is_blank cfg.index.root then some (ValidationError.field (lit "index.root")) else none
validate_mode cfg ValidationMode.status = none
validate_mode cfg ValidationMode.other = some ValidationError.unsupported_mode

module _ (parse_ip : Str → Option Bool) where
  unfoldable pub validate_for_mode : Config → ValidationMode → Option ValidationError
  unfolding first_error validate_mode
  validate_for_mode cfg mode = before (first_error (server_checks parse_ip cfg)) (
      before (first_error (index_checks cfg))
        (before (first_error (model_checks cfg)) (validate_mode cfg mode)))

  unfoldable pub validate : Config → Option ValidationError
  unfolding validate_for_mode
  validate cfg = validate_for_mode cfg ValidationMode.serve
