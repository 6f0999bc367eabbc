-- ===== src/Runtime/Disk/Tests.antt =====
-- A runtime of three files and one module, and one whose keyring has no socket.
use rillan.Base.{
  ◌≡◌, refl, ◌⊎◌, inl, inr, ReadFile, Bool, true, false, Option, none, some, [], ◌∷◌, ◌++◌, Str,
  lit, split, lookup, str_compare, str_eq, str_mem, to_lower, trim_space, normalize_string,
}
use rillan.Base.Map.{put}
use rillan.Base.Sort.{sort_func, insert}
use rillan.Config.{Config, ProjectConfig, LlmProviderConfig, bundled_llm_provider_preset}
use rillan.Config.Load.{
  apply_derived_defaults, derived_providers, default_config, preset_providers, provider_config,
  apply_llm_provider_preset_defaults, with_preset, resolve_project_path, load_with_mode,
}
use rillan.Config.Load.Env.{string_env, int_env, bool_env, csv_env, apply_env_overrides}
use rillan.Config.Load.Places.{project_config_path, resolve_project_config_path}
use rillan.Config.Load.Project.{apply_project_derived_defaults, load_project}
use rillan.Config.Load.System.{
  Sealing, default_system_config, apply_system_derived_defaults, reject_plaintext_system_config,
  decrypt_system_policy_payload, decrypt_system_policy, load_system,
}
use rillan.Config.Resolve.{
  provider_with, resolve_active_llm_provider, resolve_llm_provider_by_id, make_allowlist,
  resolve_adapter, adapter_for, adapters_from, resolve_host,
}
use rillan.Config.Samples.{plain_config}
use rillan.Config.Validate.{
  trim_host, trim_left_brackets, first_error, host_requires_non_loopback_opt_in,
  is_wildcard_bind_host, validate_active, validate_serve, validate_mode, validate_for_mode,
  validate_route_preference, validate_sources, validate_task_types, blank_item, validate_project,
  validate_system,
}
use rillan.Modules.{by_id, filter_from, filter_enabled}
use rillan.Modules.Load.{Listing, load_entry, load_from, load_project_catalog}
use rillan.Modules.Manifest.{
  ModuleError, normalize_all, normalize_command, check_transport, check_adapter,
  normalize_llm_adapters, normalize_mcp_servers, normalize_lsp_servers, load_module_manifest,
}
use rillan.Modules.Trust.{
  module_uses_stdio, canonical_project_root, is_trusted_by, find_module_trust, trusted_from,
  filter_trusted,
}
use rillan.Providers.{Provider, new_adapter, host_all, new_host, provider, default_provider}
use rillan.Routing.Catalog.{build_catalog}
use rillan.Routing.Status.{build_status_catalog}
use rillan.Runtime.{
  BuildError, RuntimeSnapshot, add_adapters, add_modules, augment_runtime_config, runtime_config,
  build_runtime_snapshot,
}
use rillan.Runtime.Disk.{
  Disk, DiskError, RuntimeState, default_project_modules_dir, project_root_from_config_path,
  build_from_loaded, build_from_disk,
}
use rillan.Runtime.Disk.Booted.{IsBooted, build_from_disk-IsBooted}
use rillan.Runtime.Samples.{
  json, ready, sha256, resolve_path, adapter, unmarshal, listing, project, trusting,
}
use rillan.Secrets.{KeyringError, Keyring}

loading : Unit {0}
unfolding load_with_mode apply_derived_defaults derived_providers default_config preset_providers
    provider_config apply_llm_provider_preset_defaults with_preset resolve_project_path string_env
    int_env bool_env csv_env apply_env_overrides project_config_path resolve_project_config_path
    apply_project_derived_defaults load_project load_system decrypt_system_policy
    decrypt_system_policy_payload reject_plaintext_system_config default_system_config
    apply_system_derived_defaults bundled_llm_provider_preset trim_host trim_left_brackets
    first_error host_requires_non_loopback_opt_in is_wildcard_bind_host validate_active
    validate_serve validate_mode validate_for_mode validate_route_preference validate_sources
    validate_task_types blank_item validate_project validate_system
loading = tt

booting : Unit {0}
unfolding loading build_from_disk build_from_loaded default_project_modules_dir
    project_root_from_config_path build_runtime_snapshot runtime_config load_project_catalog
    load_from load_entry load_module_manifest normalize_all normalize_command check_transport
    check_adapter normalize_llm_adapters normalize_mcp_servers normalize_lsp_servers filter_enabled
    filter_from by_id filter_trusted trusted_from find_module_trust is_trusted_by
    canonical_project_root module_uses_stdio augment_runtime_config add_modules add_adapters
    resolve_host adapters_from adapter_for resolve_adapter resolve_llm_provider_by_id
    resolve_active_llm_provider make_allowlist provider_with new_host host_all new_adapter
    default_provider provider sort_func insert put lookup split str_compare str_eq str_mem lit
    trim_space normalize_string to_lower
booting = tt

abbrev held_key : Str
held_key = lit "0123456789abcdef0123456789abcdef"

abbrev main : LlmProviderConfig
main = record (adapter) { id = lit "main"; command = lit "/bin/main" ∷ [] }

abbrev given : Config
given = record (plain_config) { llms = record { default = lit "main"; providers = main ∷ [] } }

abbrev sealing : Sealing
sealing = record {
  envelope = λ bytes. some [];
  decode = λ bytes cfg. some (record (cfg) { encrypted_payload = bytes });
  decode_hex = λ text. some text;
  decode_base64 = λ text. some text;
  nonce_size = 2;
  gcm_open = λ key nonce ciphertext. some ciphertext;
  unmarshal = λ text. some (trusting true).policy;
}

-- Every file there is has some text in it.
abbrev disk_with : Keyring Unit → Disk Unit
disk_with ring = record {
  paths = record {
    is_abs = λ path. false;
    clean = λ path. path;
    dir = λ path. lit "/r";
    join = λ base name. base ++ lit "/" ++ name;
    abs = λ path. some path;
  };
  machine = record {
    cwd = some (lit "/r");
    config_dir = none;
    home = none;
    is_darwin = false;
    lookup = λ key. none;
    exists = λ path. true;
  };
  env = record { lookup = λ key. none; atoi = λ value. none; parse_bool = λ value. none };
  read_file = λ path. ReadFile.content (lit "text");
  read_dir = λ path. listing;
  decode_config = λ bytes cfg. some (given, false);
  decode_project = λ bytes cfg. some (record (project) { name = lit "p" });
  decode_manifest = unmarshal;
  sealing = sealing;
  parse_ip = λ host. some true;
  sha256 = sha256;
  resolve = resolve_path;
  ring = ring;
  json = json;
  not_exist = λ err. true;
  ready = ready;
}

abbrev ring : Keyring Unit
ring = record {
  get = λ service account s. inr held_key;
  set = λ service account value s. inr s;
  delete = λ service account s. inr s;
}

abbrev disk : Disk Unit
disk = disk_with ring

abbrev booted : DiskError ⊎ RuntimeState
booted = build_from_disk disk tt (lit "/s") [] (lit "/c")

abbrev loaded : Config
loaded = apply_derived_defaults disk.paths (lit "/c") false given

abbrev run_module : LlmProviderConfig
run_module = record (adapter) { command = lit "/r/modules/m/./run" ∷ [] }

abbrev augmented : Config
augmented = record (loaded) {
  llms = record { default = lit "main"; providers = main ∷ run_module ∷ [] };
}

abbrev named : ProjectConfig
named = record (project) { name = lit "p"; classification = lit "open_source" }

abbrev snapshot : RuntimeSnapshot
snapshot = record {
  provider = Provider.stdio (lit "/bin/main" ∷ []);
  provider_host = record {
    default_provider_id = lit "main";
    providers =
        (lit "main", Provider.stdio (lit "/bin/main" ∷ []))
        ∷ (lit "local", Provider.stdio (lit "/r/modules/m/./run" ∷ []))
        ∷ [];
  };
  config = augmented;
  project_config = named;
  system_config = some (record (default_system_config) {
    encrypted_payload = lit "text";
    policy = (trusting true).policy;
  });
  modules = record {
    modules_dir = lit "/r/modules";
    modules =
        record {
          id = lit "m";
          display_name = lit "M";
          version = lit "1";
          root_path = lit "/r/modules/m";
          manifest_sha256 = lit "d";
          manifest_path = lit "/r/modules/m/module.yaml";
          entrypoint = lit "run" ∷ [];
          llm_adapters = run_module ∷ [];
          mcp_servers = [];
          lsp_servers = [];
        }
        ∷ [];
  };
  route_catalog = build_catalog augmented named;
  route_status = build_status_catalog ring json tt ready augmented (build_catalog augmented named);
  readiness_info = record {
    retrieval_mode = lit "disabled";
    system_config_loaded = true;
    audit_ledger_path = [];
    local_model_required = false;
    modules_discovered = 1;
    modules_enabled = 1;
  };
}

abbrev state : RuntimeState
state = record {
  snapshot = snapshot;
  project_config_path = lit "/r/.rillan/project.yaml";
  system_config_path = lit "/s";
}

boots : booted ≡ inr state
unfolding booting
boots = refl

build_from_disk-IsBooted_example : IsBooted disk tt (lit "/s") (lit "/c") state
build_from_disk-IsBooted_example =
    build_from_disk-IsBooted disk tt (lit "/s") (lit "/c") [] state boots

-- The keyring's error takes the system away, although its file is there; the module is then not
-- trusted.
abbrev failing : Keyring Unit
failing = record (ring) { get = λ service account s. inl KeyringError.unavailable }

system_lost :
    build_from_disk (disk_with failing) tt (lit "/s") [] (lit "/c")
    ≡ inl (DiskError.of_build (BuildError.of_module ModuleError.untrusted))
unfolding booting
system_lost = refl

-- Without any module it is served without a system.
abbrev found_system : DiskError ⊎ RuntimeState → Option Bool
found_system (inl err) = none
found_system (inr built) = some built.snapshot.readiness_info.system_config_loaded

served_without :
    found_system (
      build_from_disk
        (record (disk_with failing) {
          read_dir = λ path. Listing.missing;
          decode_project = λ bytes cfg. some (record (cfg) { name = lit "p" });
        })
        tt
        (lit "/s")
        []
        (lit "/c"))
    ≡ some false
unfolding booting
served_without = refl
