-- ===== src/Routing/StatusTests.antt =====
-- A command that is ready, and one that is not configured.
use rillan.Base.{
  ◌≡◌, ◌↔◌, refl, inl, true, false, Option, none, [], ◌∷◌, Str, lit, str_eq, trim_space,
  normalize_string, lookup,
}
use rillan.Base.Map.{put}
use rillan.Config.{Config, transport_stdio}
use rillan.Config.Samples.{plain_config}
use rillan.Config.Resolve.{resolve_llm_provider_by_id, resolve_adapter, provider_with}
use rillan.Secrets.{KeyringError, Keyring, Codec}
use rillan.Providers.{Provider, new_adapter, host_all, new_host, provider, default_provider}
use rillan.Routing.Types.{Location, Candidate}
use rillan.Routing.Status.{
  requires_credential, runtime_status, build_candidate_status, finalize_candidate_status,
}
use rillan.Routing.Available.{CanServe, build_candidate_status-available_iff}

-- A keyring that nothing works on.
abbrev ring : Keyring (Unit {0})
ring = record {
  get = λ service account s. inl KeyringError.missing;
  set = λ service account value s. inl KeyringError.unavailable;
  delete = λ service account s. inl KeyringError.missing;
}

abbrev json : Codec
json = record { marshal = λ credential. none; unmarshal = λ text. none }

abbrev config : Config
config = record (plain_config) {
  llms = record {
    default = lit "cmd";
    providers =
        record {
          id = lit "cmd";
          preset = [];
          backend = lit "ollama";
          transport = transport_stdio;
          endpoint = [];
          command = lit "run" ∷ [];
          auth_strategy = [];
          default_model = [];
          model_pins = [];
          capabilities = [];
          credential_ref = [];
        }
        ∷ [];
  };
}

abbrev candidate_of : Str → Candidate
candidate_of id = record {
  id = id;
  backend = [];
  preset = [];
  transport = [];
  endpoint = [];
  default_model = [];
  model_pins = [];
  capabilities = [];
  location = Location.local;
}

abbrev ready : Provider → Option Str
ready p = none

probing : Unit {0}
unfolding build_candidate_status runtime_status requires_credential finalize_candidate_status
    resolve_llm_provider_by_id provider_with resolve_adapter new_adapter host_all new_host provider
    default_provider lit str_eq trim_space normalize_string lookup put
probing = tt

is_available :
    (build_candidate_status ring json tt ready config (candidate_of (lit "cmd"))).available ≡ true
unfolding probing
is_available = refl

is_unavailable :
    (build_candidate_status ring json tt ready config (candidate_of (lit "x"))).available ≡ false
unfolding probing
is_unavailable = refl

build_candidate_status-available_iff_example :
    let st = build_candidate_status ring json tt ready config (candidate_of (lit "cmd")) in
    ((st.available ≡ true) ↔ CanServe ring json tt ready config (candidate_of (lit "cmd")))
    × ((st.available ≡ true) ↔ (st.unavailable_reasons ≡ []))
    × (st.candidate ≡ candidate_of (lit "cmd"))
build_candidate_status-available_iff_example =
    build_candidate_status-available_iff ring json tt ready config (candidate_of (lit "cmd"))
