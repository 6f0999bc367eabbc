-- ===== src/Auth/Tests.antt =====
-- A daemon with one token in its keyring.
use rillan.Base.{
  ◌≡◌, ◌↔◌, refl, true, inl, inr, some, [], Str, lit, str_eq, to_lower, trim_space, has_prefix,
}
use rillan.Config.{Config, auth_api_key}
use rillan.Config.Samples.{plain_config}
use rillan.Config.Resolve.{resolve_server_auth_bearer}
use rillan.Secrets.{
  Credential, KeyringError, Keyring, Codec, load, parse_ref, split_last, resolve_bearer,
  validate_binding, secret_of,
}
use rillan.Secrets.Bearer.{IsBound, IsTokenOf}
use rillan.Auth.{Outcome, protected, parse_bearer_token, split_space}
use rillan.Auth.Laws.{protected-served_iff}

guarding : Unit {0}
unfolding protected parse_bearer_token split_space resolve_server_auth_bearer resolve_bearer load
    parse_ref split_last validate_binding secret_of lit str_eq to_lower trim_space has_prefix
guarding = tt

abbrev stored : Credential
stored = record {
  kind = [];
  api_key = lit "k";
  access_token = [];
  refresh_token = [];
  id_token = [];
  endpoint = lit "https://a";
  auth_strategy = auth_api_key;
  issuer = [];
  audience = [];
  stored_at = [];
}

abbrev ring : Keyring Unit
ring = record {
  get = λ service account s. inr (lit "stored");
  set = λ service account value s. inr s;
  delete = λ service account s. inl KeyringError.missing;
}

abbrev json : Codec
json = record { marshal = λ credential. some (lit "stored"); unmarshal = λ value. some stored }

abbrev config : Config
config = record plain_config {
  server = record (plain_config.server) {
    auth = record {
      enabled = true;
      auth_strategy = auth_api_key;
      session_ref = lit "keyring://rillan/auth/daemon";
    };
  };
}

served : protected ring json tt config (lit "bearer  k") ≡ Outcome.served
unfolding guarding
served = refl

no_scheme : protected ring json tt config (lit "k") ≡ Outcome.unauthorized
unfolding guarding
no_scheme = refl

protected-served_iff_example :
    (protected ring json tt config (lit "bearer  k") ≡ Outcome.served) ↔ (
      (token : Str) × (parse_bearer_token (lit "bearer  k") ≡ some token)
      × ((credential : Credential) × (load ring json (lit "keyring://rillan/auth/daemon") tt
            ≡ inr credential)
          × IsBound credential (record {
            endpoint = [];
            auth_strategy = trim_space auth_api_key;
            issuer = [];
            audience = [];
          })
          × IsTokenOf token credential))
protected-served_iff_example = protected-served_iff ring json tt config (lit "bearer  k") refl
