-- ===== src/Config/Load/Tests.antt =====
-- A registry of one provider by its preset, in a file that sets no default provider.
use rillan.Base.{
  ◌≡◌, refl, inl, inr, ReadFile, Bool, true, false, ℤ, pos, if◌then◌else◌, split, lookup, Option,
  none, some, [], ◌∷◌, ◌++◌, Str, lit, str_eq, trim_space, normalize_string,
}
use rillan.Config.Load.{
  Paths, LoadError, load_for_edit, load_with_mode, apply_derived_defaults, derived_providers,
  default_config, preset_providers, provider_config, apply_llm_provider_preset_defaults,
  with_preset, resolve_project_path,
}
use rillan.Config.Load.Defaulted.{load-unresolved}
use rillan.Config.Load.Env.{
  Environment, string_env, int_env, bool_env, csv_env, apply_env_overrides,
}
use rillan.Config.Presets.{bundled_llm_provider_preset}
use rillan.Config.Resolve.{ResolveError, provider_with, resolve_active_llm_provider}
use rillan.Config.Types.{Config, LlmProviderConfig}
use rillan.Config.Validate.{ValidationError, ValidationMode, default_project_config}

loading : Unit {0}
unfolding load_for_edit load_with_mode apply_env_overrides string_env int_env bool_env csv_env split
    lookup apply_derived_defaults derived_providers default_config preset_providers provider_config
    apply_llm_provider_preset_defaults with_preset resolve_project_path bundled_llm_provider_preset
    provider_with resolve_active_llm_provider str_eq lit trim_space normalize_string
loading = tt

abbrev slashed : Paths
slashed = record {
  is_abs = λ path. false;
  clean = λ path. path;
  dir = λ path. lit "/etc/rillan";
  join = λ base path. base ++ lit "/" ++ path;
  abs = λ path. some path;
}

abbrev claude : LlmProviderConfig
claude = record {
  id = lit "claude-prod";
  preset = lit "anthropic";
  backend = [];
  transport = [];
  endpoint = [];
  command = [];
  auth_strategy = [];
  default_model = lit "claude-sonnet-4-5";
  model_pins = [];
  capabilities = [];
  credential_ref = [];
}

-- The decoder sets what the file has: the list of the providers.
abbrev one_provider : Str → Config → Option (Config × Bool)
one_provider [] cfg = none
one_provider (c ∷ cs) cfg = some (
  record (cfg) {
    index = record (cfg.index) { root = lit "repo" };
    llms = record { default = cfg.llms.default; providers = claude ∷ [] };
  },
  false,
)

abbrev decoded_config : Config
decoded_config = record (default_config) {
  index = record (default_config.index) { root = lit "repo" };
  llms = record { default = default_config.llms.default; providers = claude ∷ [] };
}

abbrev config_path : Str
config_path = lit "/etc/rillan/config.yaml"

abbrev loaded_config : Config
loaded_config = apply_derived_defaults slashed config_path false decoded_config

empty_refused :
    load_for_edit slashed one_provider config_path (ReadFile.content [])
    ≡ inl LoadError.parse_config
unfolding loading
empty_refused = refl

root_joined : loaded_config.index.root ≡ lit "/etc/rillan/repo"
unfolding loading
root_joined = refl

preset_applied : apply_llm_provider_preset_defaults claude ≡ record (claude) {
  backend = lit "anthropic";
  transport = lit "http";
  endpoint = lit "https://api.anthropic.com";
  auth_strategy = lit "api_key";
  model_pins = lit "claude-sonnet-4-5" ∷ [];
  capabilities = (apply_llm_provider_preset_defaults claude).capabilities;
  credential_ref = lit "keyring://rillan/llm/claude-prod";
}
unfolding loading
preset_applied = refl

abbrev as_port : Str → Option ℤ
as_port value = if str_eq value (lit "9000") then some (pos 9000) else none

-- Two variables are set, and one that is no number.
abbrev env : Environment
env = record {
  lookup = λ key. lookup key (
      (lit "RILLAN_SERVER_PORT", lit "9000")
      ∷ (lit "RILLAN_INDEX_INCLUDES", lit "src, ,docs")
      ∷ (lit "RILLAN_RETRIEVAL_TOP_K", lit "many")
      ∷ []);
  atoi = as_port;
  parse_bool = λ value. none;
}

port_overridden : (apply_env_overrides env decoded_config).server.port ≡ pos 9000
unfolding loading
port_overridden = refl

includes_listed :
    (apply_env_overrides env decoded_config).index.includes ≡ lit "src" ∷ lit "docs" ∷ []
unfolding loading
includes_listed = refl

top_k_kept : (apply_env_overrides env decoded_config).retrieval.top_k ≡ pos 4
unfolding loading
top_k_kept = refl

abbrev local_ip : Str → Option Bool
local_ip host = some true

load-unresolved_example :
    ((loaded : Config) × (load_for_edit slashed one_provider config_path
          (ReadFile.content (lit "llms:"))
        ≡ inr loaded)
      × (resolve_active_llm_provider loaded default_project_config
          ≡ inl ResolveError.active_not_found))
    × ((err : ValidationError) × (load_with_mode slashed one_provider env local_ip
            ValidationMode.serve config_path
            (ReadFile.content (lit "llms:"))
          ≡ inl (LoadError.invalid err)))
unfolding loading
load-unresolved_example =
    load-unresolved slashed one_provider env local_ip config_path (lit "llms:") decoded_config refl
      refl refl refl refl

absent_served :
    load_with_mode slashed one_provider env local_ip ValidationMode.serve config_path
      ReadFile.absent
    ≡ inl LoadError.not_found
unfolding loading
absent_served = refl
