-- ===== src/Config/Validate/Bound.antt =====
-- What a configuration that is accepted promises.
use rillan.Base.{
  ◌≡◌, subst, inl, inr, Bool, true, false, ◌||◌, Option, none, some, [], ◌∷◌, is_empty, All, arith,
  Str, Sum-cases, str_eq, ltb_ℤ, pos,
}
use rillan.Config.{Config, ResolvedLlmProvider, schema_version_v2, transport_http, transport_stdio}
use rillan.Config.Resolve.{resolve_active_llm_provider}
use rillan.Config.Validate.{
  ValidationError, ValidationMode, Checks, first_error, before, is_blank, server_checks,
  index_checks, model_checks, validate_mode, validate_serve, validate_active, validate_for_mode,
  default_project_config, host_requires_non_loopback_opt_in, is_wildcard_bind_host,
}

-- Without an error every test fails to hold.
first_error-none : (checks : Checks) → first_error checks ≡ none → All (λ c. c.0 ≡ false) checks
unfolding first_error
first_error-none [] e = tt
first_error-none ((true, err) ∷ checks) e = absurd (cc)
first_error-none ((false, err) ∷ checks) e = (cc, first_error-none checks e)

pub before-none :
    (first rest : Option ValidationError)
    → before first rest ≡ none
    → (first ≡ none) × (rest ≡ none)
before-none none rest e = (cc, e)
before-none (some err) rest e = absurd (cc)

-- A provider that the daemon can be asked to serve from.
abbrev pub IsActive : Config → ResolvedLlmProvider → Type 0
IsActive cfg active =
    (resolve_active_llm_provider cfg default_project_config ≡ inr active)
    × (is_blank active.backend ≡ false)
    × (str_eq active.transport transport_http || str_eq active.transport transport_stdio ≡ true)
    × (str_eq active.transport transport_stdio ≡ true → is_empty active.command ≡ false)

validate_active_lem :
    (cfg : Config) (active : ResolvedLlmProvider)
    → validate_active cfg active ≡ none
    → (is_blank active.backend ≡ false)
      × (str_eq active.transport transport_http || str_eq active.transport transport_stdio ≡ true)
      × (str_eq active.transport transport_stdio ≡ true → is_empty active.command ≡ false)
unfolding validate_active first_error
validate_active_lem cfg active e = ground (arith, e)

active_lem :
    (cfg : Config)
    → ltb_ℤ cfg.schema_version schema_version_v2 ≡ false
    → is_empty cfg.llms.providers ≡ false
    → validate_serve cfg ≡ none
    → (active : ResolvedLlmProvider) × IsActive cfg active
unfolding validate_serve
active_lem cfg v2 some_providers e =
    elim (Sum-cases (resolve_active_llm_provider cfg default_project_config)) [
      | inl (err, failed) ↦ absurd (ground (arith, e, v2, some_providers, failed))
      | inr (active, resolved) ↦
          let (b, t, c) =
            validate_active_lem cfg active (ground (arith, e, v2, some_providers, resolved)) in
          (active, (resolved, b, t, c))
    ]

module _ (parse_ip : Str → Option Bool) where
  -- The four groups of tests.
  groups :
      (cfg : Config) (mode : ValidationMode)
      → validate_for_mode parse_ip cfg mode ≡ none
      → (first_error (server_checks parse_ip cfg) ≡ none)
        × (first_error (index_checks cfg) ≡ none)
        × (first_error (model_checks cfg) ≡ none)
        × (validate_mode cfg mode ≡ none)
  unfolding validate_for_mode
  groups cfg mode e =
      let (s, rest) = before-none _ _ e in
      let (i, more) = before-none _ _ rest in
      let (m, last) = before-none _ _ more in (s, i, m, last)

  -- What the server of an accepted configuration is.
  pub record IsSafe (cfg : Config) : Type 0 where
    pub exposed :
        host_requires_non_loopback_opt_in parse_ip cfg.server.host ≡ true
        → (cfg.server.allow_non_loopback_bind ≡ true)
          × (cfg.server.auth.enabled ≡ true)
          × (is_wildcard_bind_host cfg.server.host ≡ true)
    pub authenticated :
        cfg.server.auth.enabled ≡ true → is_blank cfg.server.auth.session_ref ≡ false
    pub positive :
        (ltb_ℤ cfg.retrieval.top_k (pos 1) ≡ false)
        × (ltb_ℤ cfg.retrieval.max_context_chars (pos 1) ≡ false)
    pub read_only : cfg.agent.mcp.enabled ≡ true → cfg.agent.mcp.read_only ≡ true

  validate-IsSafe :
      (cfg : Config) (mode : ValidationMode)
      → validate_for_mode parse_ip cfg mode ≡ none
      → IsSafe cfg
  validate-IsSafe cfg mode e =
      let (s, i, m, last) = groups cfg mode e in
      let server = first_error-none (server_checks parse_ip cfg) s in
      let index = first_error-none (index_checks cfg) i in
      let model = first_error-none (model_checks cfg) m in
      record {
        exposed = λ x. ground (arith, server, x);
        authenticated = λ x. ground (arith, server, x);
        positive = ground (arith, index);
        read_only = λ x. ground (arith, model, x);
      }

  -- A configuration that is accepted, in any mode, with a host that needs it has opted in to a
  -- bind beyond the loopback, has authentication enabled and binds a wildcard address; has a
  -- reference to the session where authentication is enabled; and has positive limits of
  -- retrieval, and a read-only agent protocol where that is enabled. One that is accepted for the
  -- daemon, of the second schema and with providers, resolves under the default project to a
  -- provider that has a backend, a known transport, and a command if its transport is stdio.
  pub validate_for_mode-IsSafe :
      (cfg : Config) (mode : ValidationMode)
      → validate_for_mode parse_ip cfg mode ≡ none
      → IsSafe cfg
        × (mode ≡ ValidationMode.serve
            → ltb_ℤ cfg.schema_version schema_version_v2 ≡ false
            → is_empty cfg.llms.providers ≡ false
            → (active : ResolvedLlmProvider) × IsActive cfg active)
  unfolding validate_mode
  validate_for_mode-IsSafe cfg mode e = (
    validate-IsSafe cfg mode e,
    λ serving v2 some_providers.
        active_lem cfg v2 some_providers
          (subst (λ m. validate_mode cfg m ≡ none) serving (groups cfg mode e).3),
  )
