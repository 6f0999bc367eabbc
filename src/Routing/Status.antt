-- ===== src/Routing/Status.antt =====
-- internal/routing/status.go: which candidates can serve, and why the others cannot. The readiness
-- probe of a client, with its time limit, is the parameter `ready`: an error or none. A detail is
-- the error of which the source keeps the text.
use rillan.Base.{
  Bool, true, false, not, ◌&&◌, if◌then◌else◌, Option, none, some, List, [], ◌∷◌, inl, inr, map,
  reverse, is_empty, Str, Ordering, str_eq, str_compare, trim_space, normalize_string,
}
use rillan.Base.Sort.{sort_func}
use rillan.Config.{
  Config, ResolvedLlmProvider, RuntimeProviderAdapterConfig, RuntimeProviderHostConfig, auth_none,
}
use rillan.Config.Resolve.{ResolveError, resolve_llm_provider_by_id, resolve_adapter}
use rillan.Secrets.{SecretError, Keyring, Codec}
use rillan.Providers.{Provider, HostError, new_host, default_provider}
use rillan.Routing.Types.{Candidate, Catalog}

pub data UnavailableReasonCode : Type 0 where
  not_configured missing_credentials invalid_credentials : UnavailableReasonCode
  unsupported_runtime not_ready : UnavailableReasonCode

pub data StatusError : Type 0 where
  resolution : ResolveError → StatusError
  requires_credentials : Str → StatusError
  hosting : HostError → StatusError
  probe : Str → StatusError

pub record UnavailableReason : Type 0 where
  pub code : UnavailableReasonCode
  pub detail : StatusError

pub record CandidateStatus : Type 0 where
  pub candidate : Candidate
  pub configured : Bool
  pub auth_valid : Bool
  pub ready : Bool
  pub available : Bool
  pub unavailable_reasons : List UnavailableReason

pub record StatusCatalog : Type 0 where
  pub candidates : List CandidateStatus
  pub by_id : List (Str × CandidateStatus)

unfoldable pub requires_credential : ResolvedLlmProvider → Bool
requires_credential p =
    not (is_empty (normalize_string p.auth_strategy))
    && not (str_eq (normalize_string p.auth_strategy) auth_none)

-- `errors.Is` finds the keyring's error for a missing entry.
abbrev pub is_not_found : ResolveError → Bool
is_not_found (ResolveError.secret SecretError.not_found) = true
is_not_found _ = false

unfoldable pub classify_resolution_error : ResolveError → UnavailableReason
classify_resolution_error err = record {
  code =
      if is_not_found err
      then UnavailableReasonCode.missing_credentials
      else UnavailableReasonCode.invalid_credentials;
  detail = StatusError.resolution err;
}

unfoldable pub finalize_candidate_status : CandidateStatus → CandidateStatus
finalize_candidate_status status = record status {
  available =
      status.configured
      && (status.auth_valid && (status.ready && is_empty status.unavailable_reasons));
}

-- A status with one reason, as it is returned.
abbrev pub refused : Candidate → Bool → Bool → UnavailableReason → CandidateStatus
refused candidate configured auth_valid reason = record {
  candidate = candidate;
  configured = configured;
  auth_valid = auth_valid;
  ready = false;
  available = false;
  unavailable_reasons = reason ∷ [];
}

-- The host of one adapter.
abbrev pub host_config_of :
    ResolvedLlmProvider → RuntimeProviderAdapterConfig → RuntimeProviderHostConfig
host_config_of selected adapter = record { default = selected.id; providers = adapter ∷ [] }

abbrev compare_status : CandidateStatus → CandidateStatus → Ordering
compare_status left right = str_compare left.candidate.id right.candidate.id

module _ {S : Type 0} (ring : Keyring S) (json : Codec) (s : S)
    (ready : Provider → Option Str) where
  -- What follows once the adapter is resolved.
  unfoldable pub runtime_status :
      Candidate → ResolvedLlmProvider → RuntimeProviderAdapterConfig → CandidateStatus
  runtime_status c selected adapter = elim (new_host (host_config_of selected adapter)) [
    | inl err ↦ finalize_candidate_status (
        refused c true true (record {
          code = UnavailableReasonCode.unsupported_runtime;
          detail = StatusError.hosting err;
        }))
    | inr h ↦ elim (default_provider h) [
      | inl err ↦ finalize_candidate_status (
          refused c true true (record {
            code = UnavailableReasonCode.unsupported_runtime;
            detail = StatusError.hosting err;
          }))
      | inr p ↦ elim (ready p) [
        | some err ↦ finalize_candidate_status (
            refused c true true
              (record { code = UnavailableReasonCode.not_ready; detail = StatusError.probe err }))
        | none ↦ record {
          candidate = c;
          configured = true;
          auth_valid = true;
          ready = true;
          available = true;
          unavailable_reasons = [];
        }
      ]
    ]
  ]

  unfoldable pub build_candidate_status : Config → Candidate → CandidateStatus
  build_candidate_status cfg c = elim (resolve_llm_provider_by_id cfg c.id) [
    | inl err ↦ refused c false false (record {
      code = UnavailableReasonCode.not_configured;
      detail = StatusError.resolution err;
    })
    | inr selected ↦
        if requires_credential selected && is_empty (trim_space selected.credential_ref)
        then finalize_candidate_status (
            refused c true false (record {
              code = UnavailableReasonCode.missing_credentials;
              detail = StatusError.requires_credentials selected.id;
            }))
        else elim (resolve_adapter ring json s cfg selected) [
          | inl err ↦
              finalize_candidate_status (refused c true false (classify_resolution_error err))
          | inr adapter ↦ runtime_status c selected adapter
        ]
  ]

  unfoldable pub build_status_catalog : Config → Catalog → StatusCatalog
  unfolding build_candidate_status sort_func
  build_status_catalog cfg catalog =
      let statuses =
        sort_func compare_status (map (build_candidate_status cfg) catalog.candidates) in
      record { candidates = statuses; by_id = map (λ st. (st.candidate.id, st)) (reverse statuses) }
