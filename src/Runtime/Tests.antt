-- ===== src/Runtime/Tests.antt =====
-- A module whose adapter is a command, which the project enables and the system trusts.
use rillan.Base.{
  ◌≡◌, ℕ, refl, ◌⊎◌, inl, inr, Bool, true, false, Option, none, some, [], ◌∷◌, All, Str, lit,
  str_eq, str_mem, trim_space, normalize_string, lookup, to_lower, str_compare,
}
use rillan.Base.Map.{put}
use rillan.Config.{Config, SystemConfig, LlmProviderConfig}
use rillan.Config.Samples.{plain_config}
use rillan.Modules.{by_id, filter_from, filter_enabled}
use rillan.Modules.Load.{load_entry, load_from, load_project_catalog}
use rillan.Modules.Loaded.{IsCatalog, entries_of, load_project_catalog-IsLoaded}
use rillan.Modules.Manifest.{
  ModuleError, normalize_all, normalize_command, check_transport, check_adapter,
  normalize_llm_adapters, normalize_mcp_servers, normalize_lsp_servers, load_module_manifest,
}
use rillan.Modules.Trust.{
  module_uses_stdio, canonical_project_root, is_trusted_by, find_module_trust, trusted_from,
  filter_trusted,
}
use rillan.Base.Sort.{sort_func, insert}
use rillan.Config.Resolve.{
  provider_with, resolve_active_llm_provider, resolve_llm_provider_by_id, make_allowlist,
  resolve_adapter, adapter_for, adapters_from, resolve_host,
}
use rillan.Providers.{Provider, new_adapter, host_all, new_host, provider, default_provider}
use rillan.Runtime.Samples.{
  ring, json, ready, is_abs, join, sha256, resolve_path, adapter, unmarshal, listing, project,
  trusting,
}
use rillan.Runtime.{
  BuildError, RuntimeSnapshot, add_adapters, add_modules, augment_runtime_config, runtime_config,
  build_runtime_snapshot,
}
use rillan.Runtime.Granted.{IsGranted, build_runtime_snapshot-IsGranted}
use rillan.Config.Validate.{trim_host, trim_left_brackets}
use rillan.Routing.Catalog.{build_catalog}
use rillan.Routing.Status.{build_status_catalog}
use rillan.Runtime.Reload.{RuntimeManager, refresh, is_loopback_request, admin_reload}
use rillan.Runtime.Trusted.{IsAugmented}

abbrev cfg : Config
cfg = record (plain_config) { llms = record { default = lit "local"; providers = [] } }

abbrev built : SystemConfig → BuildError ⊎ RuntimeSnapshot
built system =
    build_runtime_snapshot is_abs join unmarshal sha256 resolve_path ring json tt ready cfg project
      (some system) (lit "/r/.rillan/modules") (lit "/r") listing []

running : Unit {0}
unfolding build_runtime_snapshot runtime_config load_project_catalog load_from load_entry
    load_module_manifest normalize_all normalize_command check_transport check_adapter
    normalize_llm_adapters normalize_mcp_servers normalize_lsp_servers filter_enabled filter_from
    by_id filter_trusted trusted_from find_module_trust is_trusted_by canonical_project_root
    module_uses_stdio augment_runtime_config add_modules add_adapters resolve_host adapters_from
    adapter_for resolve_adapter resolve_llm_provider_by_id resolve_active_llm_provider
    make_allowlist provider_with new_host host_all new_adapter default_provider provider sort_func
    insert put lookup str_compare str_eq str_mem lit trim_space normalize_string to_lower
running = tt

reloading : Unit {0}
unfolding admin_reload refresh is_loopback_request trim_host trim_left_brackets str_eq to_lower
    trim_space lit
reloading = tt

-- Without trust in stdio nothing is built.
untrusted : built (trusting false) ≡ inl (BuildError.of_module ModuleError.untrusted_stdio)
unfolding running
untrusted = refl

abbrev run_module : LlmProviderConfig
run_module = record (adapter) { command = lit "/r/run" ∷ [] }

abbrev augmented : Config
augmented = record (cfg) { llms = record { default = lit "local"; providers = run_module ∷ [] } }

-- The provider is the command of the module.
abbrev snapshot : RuntimeSnapshot
snapshot = record {
  provider = Provider.stdio (lit "/r/run" ∷ []);
  provider_host = record {
    default_provider_id = lit "local";
    providers = (lit "local", Provider.stdio (lit "/r/run" ∷ [])) ∷ [];
  };
  config = augmented;
  project_config = project;
  system_config = some (trusting true);
  modules = record {
    modules_dir = lit "/r/.rillan/modules";
    modules =
        record {
          id = lit "m";
          display_name = lit "M";
          version = lit "1";
          root_path = lit "/r/run";
          manifest_sha256 = lit "d";
          manifest_path = lit "/r/run";
          entrypoint = lit "run" ∷ [];
          llm_adapters = run_module ∷ [];
          mcp_servers = [];
          lsp_servers = [];
        }
        ∷ [];
  };
  route_catalog = build_catalog augmented project;
  route_status =
      build_status_catalog ring json tt ready augmented (build_catalog augmented project);
  readiness_info = record {
    retrieval_mode = lit "disabled";
    system_config_loaded = true;
    audit_ledger_path = [];
    local_model_required = false;
    modules_discovered = 1;
    modules_enabled = 1;
  };
}

building : built (trusting true) ≡ inr snapshot
unfolding running
building = refl

loading :
    load_project_catalog is_abs join unmarshal sha256 (lit "/r/.rillan/modules") listing
    ≡ inr snapshot.modules
unfolding running
loading = refl

load_project_catalog-IsLoaded_example :
    IsCatalog sha256 (entries_of listing) snapshot.modules.modules
load_project_catalog-IsLoaded_example =
    load_project_catalog-IsLoaded sha256 is_abs join unmarshal (lit "/r/.rillan/modules") listing
      snapshot.modules loading

snapshot-IsGranted :
    All
      (IsGranted is_abs join unmarshal sha256 resolve_path project
        (some (trusting true))
        (lit "/r")
        listing)
      snapshot.modules.modules
    × IsAugmented
        (IsGranted is_abs join unmarshal sha256 resolve_path project
          (some (trusting true))
          (lit "/r")
          listing)
        cfg
        snapshot.config
    × (snapshot.project_config ≡ project)
    × (snapshot.system_config ≡ some (trusting true))
snapshot-IsGranted =
    build_runtime_snapshot-IsGranted is_abs join unmarshal sha256 resolve_path project
      (some (trusting true)) (lit "/r") listing ring json tt ready cfg (lit "/r/.rillan/modules") []
      snapshot building

abbrev some_host : Str → Option Str
some_host remote_addr = some remote_addr

abbrev no_ip : Str → Option Bool
no_ip host = none

-- A request from elsewhere, a build that fails, and one that does not.
abbrev after : Str → BuildError ⊎ Str → ℕ × RuntimeManager Str
after remote_addr build =
    admin_reload some_host no_ip (lit "POST") remote_addr (some build)
      (record { current = some [] })

from_elsewhere : after (lit "10.0.0.1") (inr (lit "new")) ≡ (403, record { current = some [] })
unfolding reloading
from_elsewhere = refl

kept :
    after (lit "[LocalHost]") (inl (BuildError.of_module ModuleError.untrusted))
    ≡ (500, record { current = some [] })
unfolding reloading
kept = refl

reloaded : after (lit "localhost") (inr (lit "new")) ≡ (204, record { current = some (lit "new") })
unfolding reloading
reloaded = refl
