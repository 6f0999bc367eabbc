-- ===== src/Auth/Laws.antt =====
-- Which requests are served, and that a blank token never is enough.
use rillan.Base.{
  ◌≡◌, ◌↔◌, inl, inr, sym, ◌∙◌, true, some, [], arith, Str, str_eq_iff, str_eq_refl, Option-cases,
  Sum-cases, trim_space, ap,
}
use rillan.Config.{Config}
use rillan.Secrets.{Keyring, Codec, Credential, load}
use rillan.Secrets.Bearer.{IsBound, IsTokenOf, resolve_bearer_iff}
use rillan.Config.Resolve.{resolve_server_auth_bearer}
use rillan.Auth.{Outcome, parse_bearer_token, protected}

module _ {S : Type 0} (ring : Keyring S) (json : Codec) (s : S) where
  served_token :
      (cfg : Config) (authorization : Str)
      → cfg.server.auth.enabled ≡ true
      → protected ring json s cfg authorization ≡ Outcome.served
      → (token : Str) × (parse_bearer_token authorization ≡ some token)
        × (resolve_server_auth_bearer ring json s cfg ≡ inr token)
  unfolding protected
  served_token cfg authorization on e = elim (Option-cases (parse_bearer_token authorization)) [
    | inl none_given ↦ absurd (ground (arith, e, on, none_given))
    | inr (provided, given) ↦ elim (Sum-cases (resolve_server_auth_bearer ring json s cfg)) [
      | inl (err, failed) ↦ absurd (ground (arith, e, on, given, failed))
      | inr (expected, found) ↦ (
        provided,
        given,
        found ∙ ap inr (sym (ground (arith, e, on, given, found, str_eq_iff provided expected))),
      )
    ]
  ]

  token_served :
      (cfg : Config) (authorization token : Str)
      → parse_bearer_token authorization ≡ some token
      → resolve_server_auth_bearer ring json s cfg ≡ inr token
      → protected ring json s cfg authorization ≡ Outcome.served
  unfolding protected
  token_served cfg authorization token given found = ground (arith, given, found, str_eq_refl token)

  -- With authentication on, a request is served exactly if its header carries the token of the
  -- credential that the session reference loads, and the credential's strategy, if it has one, is
  -- the one configured, if there is one. That token is not empty.
  pub protected-served_iff :
      (cfg : Config) (authorization : Str)
      → cfg.server.auth.enabled ≡ true
      → (protected ring json s cfg authorization ≡ Outcome.served) ↔ (
          (token : Str) × (parse_bearer_token authorization ≡ some token)
          × ((credential : Credential) × (load ring json cfg.server.auth.session_ref s
                ≡ inr credential)
              × IsBound credential (record {
                endpoint = [];
                auth_strategy = trim_space cfg.server.auth.auth_strategy;
                issuer = [];
                audience = [];
              })
              × IsTokenOf token credential))
  unfolding resolve_server_auth_bearer
  protected-served_iff cfg authorization on = (
    λ e.
        let (token, given, found) = served_token cfg authorization on e in
        (
          token,
          given,
          (resolve_bearer_iff ring json cfg.server.auth.session_ref _ s token).0 found,
        ),
    λ h.
        let (token, given, holds) = h in
        token_served cfg authorization token given
          ((resolve_bearer_iff ring json cfg.server.auth.session_ref _ s token).1 holds),
  )
