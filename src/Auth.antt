-- ===== src/Auth.antt =====
-- internal/httpapi/auth_middleware.go: which requests reach a protected endpoint.
mod Laws
mod Tests
use rillan.Base.{
  Bool, true, false, not, ◌||◌, if◌then◌else◌, ◌==◌, Option, none, some, List, [], ◌∷◌, ◌⊎◌, inl,
  inr, Str, lit, is_empty, str_eq, to_lower, trim_space, ◌≡◌,
}
use rillan.Config.{Config}
use rillan.Secrets.{SecretError, Keyring, Codec}
use rillan.Config.Resolve.{resolve_server_auth_bearer}

-- `strings.SplitN(value, " ", 2)`, where there is a space.
unfoldable pub split_space : Str → Option (Str × Str)
split_space [] = none
split_space (c ∷ s) =
    let rest = split_space s in
    if c == b' '
    then some ([], s)
    else elim rest [ none ↦ none | some (head, tail) ↦ some (c ∷ head, tail) ]

-- `strings.EqualFold` on ASCII is the equality of the lower cases.
unfoldable pub parse_bearer_token : Str → Option Str
unfolding split_space
parse_bearer_token value = elim (split_space (trim_space value)) [
  | none ↦ none
  | some (scheme, rest) ↦
      let token = trim_space rest in
      if not (str_eq (to_lower scheme) (lit "bearer")) || is_empty token then none else some token
]

-- What becomes of a request: it is handed on, or answered with a status.
pub data Outcome : Type 0 where
  served unauthorized misconfigured : Outcome

module _ {S : Type 0} (ring : Keyring S) (json : Codec) (s : S) where
  -- `WrapProtectedEndpoint`, for the value of the Authorization header.
  unfoldable pub protected : Config → Str → Outcome
  protected cfg authorization =
      if not cfg.server.auth.enabled
      then Outcome.served
      else elim (parse_bearer_token authorization) [
        | none ↦ Outcome.unauthorized
        | some provided ↦ elim (resolve_server_auth_bearer ring json s cfg) [
          | inl err ↦ Outcome.misconfigured
          | inr expected ↦
              if not (str_eq provided expected) then Outcome.unauthorized else Outcome.served
        ]
      ]

-- The configuration that `protectedHandler` protects by: the snapshot's, if it has a host.
unfoldable pub protecting_config : Option Config → Config → Config
protecting_config none fallback = fallback
protecting_config (some snapshot) fallback =
    if is_empty snapshot.server.host then fallback else snapshot
