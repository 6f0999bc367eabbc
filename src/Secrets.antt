-- ===== src/Secrets.antt =====
-- internal/secretstore/store.go: credentials in the keyring of the system, under references of the
-- form keyring://service/account.
mod Refs
pub mod Bearer
mod RoundTrip
mod Tests
use rillan.Base.{
  ℕ, ◌==◌, Bool, true, false, not, ◌&&◌, ◌||◌, if◌then◌else◌, Option, none, some, List, [], ◌∷◌,
  ◌⊎◌, inl, inr, Str, lit, str_eq, is_empty, drop, length, trim_space, has_prefix,
}

pub record Credential : Type 0 where
  pub kind : Str
  pub api_key : Str
  pub access_token : Str
  pub refresh_token : Str
  pub id_token : Str
  pub endpoint : Str
  pub auth_strategy : Str
  pub issuer : Str
  pub audience : Str
  pub stored_at : Str

pub record Binding : Type 0 where
  pub endpoint : Str
  pub auth_strategy : Str
  pub issuer : Str
  pub audience : Str

pub data SecretError : Type 0 where
  unsupported_ref invalid_ref not_found read_failed write_failed delete_failed : SecretError
  encode_failed decode_failed no_secret : SecretError
  endpoint_mismatch auth_strategy_mismatch issuer_mismatch audience_mismatch : SecretError

-- How a keyring fails: it has no such entry, or for another reason.
pub data KeyringError : Type 0 where
  missing unavailable : KeyringError

-- The functions of github.com/zalando/go-keyring, on a state of the keyring; the names are the
-- service and the account.
pub record Keyring (S : Type 0) : Type 0 where
  pub get : Str → Str → S → KeyringError ⊎ Str
  pub set : Str → Str → Str → S → KeyringError ⊎ S
  pub delete : Str → Str → S → KeyringError ⊎ S

-- json.Marshal and json.Unmarshal of a credential.
pub record Codec : Type 0 where
  pub marshal : Credential → Option Str
  pub unmarshal : Str → Option Credential

-- What stands before the last separator, and what stands behind it.
unfoldable pub split_last : ℕ → Str → Option (Str × Str)
split_last sep [] = none
split_last sep (c ∷ s) =
    let rest = split_last sep s in
    elim rest [
      | some (before, after) ↦ some (c ∷ before, after)
      | none ↦ if c == sep then some ([], s) else none
    ]

abbrev pub keyring_prefix : Str
keyring_prefix = lit "keyring://"

unfoldable pub parse_ref : Str → SecretError ⊎ (Str × Str)
unfolding split_last
parse_ref ref =
    let trimmed = trim_space ref in
    if not (has_prefix trimmed keyring_prefix)
    then inl SecretError.unsupported_ref
    else elim (split_last b'/' (drop (length keyring_prefix) trimmed)) [
      | none ↦ inl SecretError.invalid_ref
      | some (service, account) ↦
          if is_empty service || is_empty account
          then inl SecretError.invalid_ref
          else inr (service, account)
    ]

-- Two texts that are both there and differ.
abbrev pub mismatch : Str → Str → Bool
mismatch bound stored = not (is_empty bound) && not (is_empty stored) && not (str_eq stored bound)

unfoldable pub validate_binding : Credential → Binding → Option SecretError
validate_binding credential binding =
    if mismatch binding.endpoint credential.endpoint
    then some SecretError.endpoint_mismatch
    else if mismatch binding.auth_strategy credential.auth_strategy
    then some SecretError.auth_strategy_mismatch
    else if mismatch binding.issuer credential.issuer
    then some SecretError.issuer_mismatch
    else if mismatch binding.audience credential.audience
    then some SecretError.audience_mismatch
    else none

-- The token of a credential: the access token, and else the key.
unfoldable pub secret_of : Credential → SecretError ⊎ Str
secret_of credential =
    if not (is_empty credential.access_token)
    then inr credential.access_token
    else if not (is_empty credential.api_key)
    then inr credential.api_key
    else inl SecretError.no_secret

abbrev pub stamped : Str → Credential → Credential
stamped now credential = record {
  kind = credential.kind;
  api_key = credential.api_key;
  access_token = credential.access_token;
  refresh_token = credential.refresh_token;
  id_token = credential.id_token;
  endpoint = credential.endpoint;
  auth_strategy = credential.auth_strategy;
  issuer = credential.issuer;
  audience = credential.audience;
  stored_at = now;
}

module _ {S : Type 0} (ring : Keyring S) (json : Codec) where
  -- `Save`; `now` is the clock's time, printed.
  unfoldable pub save : Str → Str → Credential → S → SecretError ⊎ S
  unfolding parse_ref
  save now ref credential s = elim (parse_ref ref) [
    | inl err ↦ inl err
    | inr (service, account) ↦ elim (json.marshal (stamped now credential)) [
      | none ↦ inl SecretError.encode_failed
      | some value ↦ elim (ring.set service account value s) [
        | inl err ↦ inl SecretError.write_failed
        | inr after ↦ inr after
      ]
    ]
  ]

  unfoldable pub load : Str → S → SecretError ⊎ Credential
  unfolding parse_ref
  load ref s = elim (parse_ref ref) [
    | inl err ↦ inl err
    | inr (service, account) ↦ elim (ring.get service account s) [
      | inl KeyringError.missing ↦ inl SecretError.not_found
      | inl KeyringError.unavailable ↦ inl SecretError.read_failed
      | inr value ↦ elim (json.unmarshal value) [
        | none ↦ inl SecretError.decode_failed
        | some credential ↦ inr credential
      ]
    ]
  ]

  -- `Delete`; an entry that is not there is no error.
  unfoldable pub delete : Str → S → SecretError ⊎ S
  unfolding parse_ref
  delete ref s = elim (parse_ref ref) [
    | inl err ↦ inl err
    | inr (service, account) ↦ elim (ring.delete service account s) [
      | inl KeyringError.missing ↦ inr s
      | inl KeyringError.unavailable ↦ inl SecretError.delete_failed
      | inr after ↦ inr after
    ]
  ]

  unfoldable pub exists_at : Str → S → Bool
  exists_at ref s = elim (load ref s) [ inl err ↦ false | inr credential ↦ true ]

  unfoldable pub resolve_bearer : Str → Binding → S → SecretError ⊎ Str
  unfolding validate_binding secret_of
  resolve_bearer ref binding s = elim (load ref s) [
    | inl err ↦ inl err
    | inr credential ↦ elim (validate_binding credential binding) [
      | some err ↦ inl err
      | none ↦ secret_of credential
    ]
  ]
