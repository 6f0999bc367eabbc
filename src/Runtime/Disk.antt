-- ===== src/Runtime/Disk.antt =====
-- internal/app/runtime_snapshot_builder.go: a runtime that is built from its files. What the program
-- gets from outside is the record `Disk`; `not_exist` is whether an error of the keyring wraps
-- os.ErrNotExist, as that of a missing socket does.
pub mod Booted
mod Tests
use rillan.Base.{
  ◌⊎◌, inl, inr, ◌>>=◌, ReadFile, true, false, [], if◌then◌else◌, Bool, Option, none, some,
  is_empty, Str, lit, trim_space,
}
use rillan.Config.{Config, ProjectConfig, SystemConfig}
use rillan.Config.Load.{Paths, LoadError, load_with_mode}
use rillan.Config.Load.Env.{Environment}
use rillan.Config.Load.Places.{Machine, resolve_project_config_path}
use rillan.Config.Load.Project.{load_project}
use rillan.Config.Load.System.{Sealing, SystemError, load_system}
use rillan.Config.Validate.{ValidationMode, default_project_config}
use rillan.Modules.Load.{Listing}
use rillan.Modules.Manifest.{Manifest}
use rillan.Providers.{Provider}
use rillan.Runtime.{BuildError, RuntimeSnapshot, via, build_runtime_snapshot}
use rillan.Secrets.{KeyringError, Keyring, Codec}

pub record Disk (S : Type 0) : Type 0 where
  pub paths : Paths
  pub machine : Machine
  pub env : Environment
  pub read_file : Str → ReadFile Str
  pub read_dir : Str → Listing
  pub decode_config : Str → Config → Option (Config × Bool)
  pub decode_project : Str → ProjectConfig → Option ProjectConfig
  pub decode_manifest : Str → Option Manifest
  pub sealing : Sealing
  pub parse_ip : Str → Option Bool
  pub sha256 : Str → Str
  pub resolve : Str → Option Str
  pub ring : Keyring S
  pub json : Codec
  pub not_exist : KeyringError → Bool
  pub ready : Provider → Option Str

pub data DiskError : Type 0 where
  of_config : LoadError → DiskError
  of_project : LoadError → DiskError
  of_system : SystemError → DiskError
  of_build : BuildError → DiskError

-- The default where there is no file.
abbrev pub project_or_default : LoadError ⊎ ProjectConfig → DiskError ⊎ ProjectConfig
project_or_default (inr project) = inr project
project_or_default (inl LoadError.not_found) = inr default_project_config
project_or_default (inl LoadError.read_config) = inl (DiskError.of_project LoadError.read_config)
project_or_default (inl LoadError.parse_config) = inl (DiskError.of_project LoadError.parse_config)
project_or_default (inl (LoadError.invalid err)) =
    inl (DiskError.of_project (LoadError.invalid err))

-- `errors.Is(err, os.ErrNotExist)` of what LoadSystem returns.
abbrev pub is_not_exist : (KeyringError → Bool) → SystemError → Bool
is_not_exist not_exist SystemError.not_found = true
is_not_exist not_exist (SystemError.keyring err) = not_exist err
is_not_exist not_exist _ = false

abbrev pub system_if_any :
    (KeyringError → Bool) → SystemError ⊎ SystemConfig → DiskError ⊎ Option SystemConfig
system_if_any not_exist (inr system) = inr (some system)
system_if_any not_exist (inl err) =
    if is_not_exist not_exist err then inr none else inl (DiskError.of_system err)

module _ (paths : Paths) where
  unfoldable pub default_project_modules_dir : Str → Str
  default_project_modules_dir project_config_path =
      if is_empty (trim_space project_config_path)
      then paths.join (lit ".rillan") (lit "modules")
      else paths.join (paths.dir project_config_path) (lit "modules")

  unfoldable pub project_root_from_config_path : Str → Str
  project_root_from_config_path project_config_path =
      if is_empty (trim_space project_config_path)
      then []
      else paths.dir (paths.dir project_config_path)

pub record RuntimeState : Type 0 where
  pub snapshot : RuntimeSnapshot
  pub project_config_path : Str
  pub system_config_path : Str

module _ {S : Type 0} (disk : Disk S) (s : S) (system_config_path audit_ledger_path : Str) where
  unfoldable pub build_from_loaded :
      Config → ProjectConfig → Option SystemConfig → Str → BuildError ⊎ RuntimeState
  unfolding default_project_modules_dir project_root_from_config_path
  build_from_loaded cfg project system project_config_path = do
    let modules_dir = default_project_modules_dir disk.paths project_config_path
    snapshot ←
        build_runtime_snapshot disk.paths.is_abs disk.paths.join disk.decode_manifest disk.sha256
          disk.resolve disk.ring disk.json s disk.ready cfg project system modules_dir
          (project_root_from_config_path disk.paths project_config_path) (disk.read_dir modules_dir)
          audit_ledger_path
    inr (record {
      snapshot = snapshot;
      project_config_path = project_config_path;
      system_config_path = system_config_path;
    })

  unfoldable pub build_from_disk : Str → DiskError ⊎ RuntimeState
  unfolding build_from_loaded
  build_from_disk config_path = do
    cfg ← via DiskError.of_config (
        load_with_mode disk.paths disk.decode_config disk.env disk.parse_ip ValidationMode.serve
          config_path (disk.read_file config_path))
    let project_config_path = resolve_project_config_path disk.paths disk.machine cfg.index.root
    project ← project_or_default (
        load_project disk.paths disk.decode_project project_config_path
          (disk.read_file project_config_path))
    system ←
        system_if_any disk.not_exist
          (load_system disk.sealing disk.ring s (disk.read_file system_config_path))
    via DiskError.of_build (build_from_loaded cfg project system project_config_path)
