-- ===== src/Secrets/Bearer.antt =====
-- Which token is handed out for a binding.
use rillan.Base.{
  ◌≡◌, ◌≢◌, ◌↔◌, ◌⊎◌, inl, inr, sym, ◌∙◌, false, none, some, [], arith, Str, str_eq_iff, Sum-cases,
  Option-cases,
}
use rillan.Secrets.{
  Credential, Binding, SecretError, Keyring, Codec, load, validate_binding, mismatch, secret_of,
  resolve_bearer,
}

-- Two texts agree, or one of them is not there.
abbrev pub Fits : Str → Str → Type 0
Fits bound stored = (bound ≡ []) ⊎ ((stored ≡ []) ⊎ (stored ≡ bound))

-- A credential that may be used for a binding.
pub IsBound : Credential → Binding → Type 0
IsBound credential binding =
    Fits binding.endpoint credential.endpoint
    × Fits binding.auth_strategy credential.auth_strategy
    × Fits binding.issuer credential.issuer
    × Fits binding.audience credential.audience

mismatch_iff : (bound stored : Str) → (mismatch bound stored ≡ false) ↔ Fits bound stored
mismatch_iff bound stored = ground (arith, str_eq_iff stored bound)

pub validate_binding_iff :
    (credential : Credential) (binding : Binding)
    → (validate_binding credential binding ≡ none) ↔ IsBound credential binding
unfolding validate_binding IsBound
validate_binding_iff credential binding = ground (
  arith,
  mismatch_iff binding.endpoint credential.endpoint,
  mismatch_iff binding.auth_strategy credential.auth_strategy,
  mismatch_iff binding.issuer credential.issuer,
  mismatch_iff binding.audience credential.audience,
)

-- The token of a credential: its access token, or its key if it has no access token.
pub IsTokenOf : Str → Credential → Type 0
IsTokenOf token credential =
    (token ≢ [])
    × ((token ≡ credential.access_token)
        ⊎ ((credential.access_token ≡ []) × (token ≡ credential.api_key)))

secret_of_iff :
    (credential : Credential) (token : Str)
    → (secret_of credential ≡ inr token) ↔ IsTokenOf token credential
unfolding secret_of IsTokenOf
secret_of_iff credential token = ground arith

module _ {S : Type 0} (ring : Keyring S) (json : Codec) where
  bearer_of_none :
      (ref : Str) (binding : Binding) (s : S) (err : SecretError)
      → load ring json ref s ≡ inl err
      → resolve_bearer ring json ref binding s ≡ inl err
  unfolding resolve_bearer secret_of
  bearer_of_none ref binding s err e = rw (e, resolve_bearer)

  bearer_of_bound :
      (ref : Str) (binding : Binding) (s : S) (credential : Credential)
      → load ring json ref s ≡ inr credential
      → validate_binding credential binding ≡ none
      → resolve_bearer ring json ref binding s ≡ secret_of credential
  unfolding resolve_bearer secret_of
  bearer_of_bound ref binding s credential e v = rw (e, v, resolve_bearer)

  bearer_of_unbound :
      (ref : Str) (binding : Binding) (s : S) (credential : Credential) (err : SecretError)
      → load ring json ref s ≡ inr credential
      → validate_binding credential binding ≡ some err
      → resolve_bearer ring json ref binding s ≡ inl err
  unfolding resolve_bearer secret_of
  bearer_of_unbound ref binding s credential err e v = rw (e, v, resolve_bearer)

  bearer_loaded :
      (ref : Str) (binding : Binding) (s : S) (token : Str)
      → resolve_bearer ring json ref binding s ≡ inr token
      → (credential : Credential) × (load ring json ref s ≡ inr credential)
        × IsBound credential binding
        × IsTokenOf token credential
  bearer_loaded ref binding s token e = elim (Sum-cases (load ring json ref s)) [
    | inl (err, failed) ↦ absurd (ground (arith, e, bearer_of_none ref binding s err failed))
    | inr (credential, loaded) ↦ elim (Option-cases (validate_binding credential binding)) [
      | inl fits ↦ (
        credential,
        loaded,
        (validate_binding_iff credential binding).0 fits,
        (secret_of_iff credential token).0
            (sym (bearer_of_bound ref binding s credential loaded fits) ∙ e),
      )
      | inr (err, unfit) ↦
          absurd (ground (arith, e, bearer_of_unbound ref binding s credential err loaded unfit))
    ]
  ]

  -- A token is handed out exactly if the credential at the reference can be loaded, agrees with
  -- the binding in each field that both of them give, and holds that token, which is not empty:
  -- the access token, or the key where there is no access token.
  pub resolve_bearer_iff :
      (ref : Str) (binding : Binding) (s : S) (token : Str)
      → (resolve_bearer ring json ref binding s ≡ inr token) ↔ (
          (credential : Credential) × (load ring json ref s ≡ inr credential)
          × IsBound credential binding
          × IsTokenOf token credential)
  resolve_bearer_iff ref binding s token = (
    bearer_loaded ref binding s token,
    λ h.
        let (credential, loaded, fits, holds) = h in
        bearer_of_bound ref binding s credential loaded
          ((validate_binding_iff credential binding).1 fits)
        ∙ (secret_of_iff credential token).1 holds,
  )
