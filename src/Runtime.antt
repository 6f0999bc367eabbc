-- ===== src/Runtime.antt =====
-- internal/app: the runtime snapshot, built from the configurations and the modules of the project,
-- and its refresh. The pipeline, the classifier and the checker of a snapshot are made from the
-- configuration where it is served, and are left out here.
pub mod Disk
pub mod Granted
pub mod Reload
mod Samples
pub mod Trusted
mod Tests
use rillan.Base.{
  ◌||◌, ◌⊎◌, inl, inr, ◌>>=◌, ◌>>◌, fail_if, or_error, if◌then◌else◌, Bool, Option, none, some,
  List, [], ◌∷◌, ◌++◌, is_empty, is_none, not, ltb_ℤ, length, ℕ, Str, lit, str_mem, trim_space,
}
use rillan.Config.{Config, ProjectConfig, SystemConfig, LlmProviderConfig, schema_version_v2}
use rillan.Config.Resolve.{ResolveError, resolve_host}
use rillan.Modules.{LoadedModule, Catalog, filter_enabled}
use rillan.Modules.Load.{Listing, load_project_catalog}
use rillan.Modules.Manifest.{Manifest, ModuleError}
use rillan.Modules.Trust.{filter_trusted}
use rillan.Providers.{Provider, Host, HostError, new_host, default_provider}
use rillan.Routing.Catalog.{build_catalog}
use rillan.Routing.Status.{StatusCatalog, build_status_catalog}
use rillan.Routing.Types.{Catalog as RouteCatalog}
use rillan.Secrets.{Keyring, Codec}

pub data BuildError : Type 0 where
  of_module : ModuleError → BuildError
  of_resolution : ResolveError → BuildError
  of_host : HostError → BuildError

-- A result under the caller's errors.
abbrev pub via : {E F A : Type 0} → (E → F) → E ⊎ A → F ⊎ A
via f (inl err) = inl (f err)
via f (inr a) = inr a

abbrev pub named_ids : List LlmProviderConfig → List Str
named_ids [] = []
named_ids (provider ∷ providers) =
    if is_empty (trim_space provider.id)
    then named_ids providers
    else trim_space provider.id ∷ named_ids providers

-- The inner loop: the adapters that are added, and the identifiers that are taken after them.
unfoldable pub add_adapters :
    List Str → List LlmProviderConfig → ModuleError ⊎ (List LlmProviderConfig × List Str)
add_adapters taken [] = inr ([], taken)
add_adapters taken (adapter ∷ adapters) =
    if is_empty (trim_space adapter.id) then add_adapters taken adapters else do
      fail_if (str_mem (trim_space adapter.id) taken) ModuleError.collision
      rest ← add_adapters (trim_space adapter.id ∷ taken) adapters
      inr (adapter ∷ rest.0, rest.1)

unfoldable pub add_modules : List Str → List LoadedModule → ModuleError ⊎ List LlmProviderConfig
add_modules taken [] = inr []
add_modules taken (loaded ∷ modules) = do
  added ← add_adapters taken loaded.llm_adapters
  rest ← add_modules added.1 modules
  inr (added.0 ++ rest)

-- `augmentRuntimeConfigWithModuleLLMAdapters`
unfoldable pub augment_runtime_config : Config → Catalog → ModuleError ⊎ Config
augment_runtime_config cfg catalog =
    if ltb_ℤ cfg.schema_version schema_version_v2 || is_empty catalog.modules then inr cfg else do
      added ← add_modules (named_ids cfg.llms.providers) catalog.modules
      inr (record (cfg) { llms = record (cfg.llms) { providers = cfg.llms.providers ++ added } })

pub record ReadinessInfo : Type 0 where
  pub retrieval_mode : Str
  pub system_config_loaded : Bool
  pub audit_ledger_path : Str
  pub local_model_required : Bool
  pub modules_discovered : ℕ
  pub modules_enabled : ℕ

pub record RuntimeSnapshot : Type 0 where
  pub provider : Provider
  pub provider_host : Host
  pub config : Config
  pub project_config : ProjectConfig
  pub system_config : Option SystemConfig
  pub modules : Catalog
  pub route_catalog : RouteCatalog
  pub route_status : StatusCatalog
  pub readiness_info : ReadinessInfo

module _ (is_abs : Str → Bool) (join : Str → Str → Str) (unmarshal : Str → Option Manifest)
    (sha256 : Str → Str) (resolve : Str → Option Str) where
  -- The catalog of the project, those of its modules that are enabled and trusted, and the
  -- configuration with their adapters.
  unfoldable pub runtime_config :
      Config
      → ProjectConfig
      → Option SystemConfig
      → Str
      → Str
      → Listing
      → ModuleError ⊎ (Catalog × Catalog × Config)
  runtime_config cfg project system modules_dir project_root listing = do
    discovered ← load_project_catalog is_abs join unmarshal sha256 modules_dir listing
    enabled ← or_error ModuleError.not_found (filter_enabled discovered project.modules_enabled)
    trusted ← filter_trusted resolve enabled project_root system
    augmented ← augment_runtime_config cfg trusted
    inr (discovered, trusted, augmented)

  module _ {S : Type 0} (ring : Keyring S) (json : Codec) (s : S)
      (ready : Provider → Option Str) where
    unfoldable pub build_runtime_snapshot :
        Config
        → ProjectConfig
        → Option SystemConfig
        → Str
        → Str
        → Listing
        → Str
        → BuildError ⊎ RuntimeSnapshot
    build_runtime_snapshot cfg project system modules_dir project_root listing audit_ledger_path =
        do
          prepared ←
              via BuildError.of_module
                (runtime_config cfg project system modules_dir project_root listing)
          host_config ← via BuildError.of_resolution (resolve_host ring json s prepared.2 project)
          host ← via BuildError.of_host (new_host host_config)
          provider ← via BuildError.of_host (default_provider host)
          inr (record {
            provider = provider;
            provider_host = host;
            config = prepared.2;
            project_config = project;
            system_config = system;
            modules = prepared.1;
            route_catalog = build_catalog prepared.2 project;
            route_status =
                build_status_catalog ring json s ready prepared.2
                  (build_catalog prepared.2 project);
            readiness_info = record {
              retrieval_mode =
                  if cfg.retrieval.enabled then lit "targeted_remote" else lit "disabled";
              system_config_loaded = not (is_none system);
              audit_ledger_path = audit_ledger_path;
              local_model_required = cfg.local_model.enabled;
              modules_discovered = length (prepared.0).modules;
              modules_enabled = length (prepared.1).modules;
            };
          })
