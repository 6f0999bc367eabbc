-- ===== src/Runtime/Disk/Booted.antt =====
-- What a runtime that is built from its files has been checked for.
use rillan.Base.{
  ◌∙◌, ◌≡◌, refl, sym, ap, subst, ◌⊎◌, inl, inr, >>=-eq-inr, Bool, true, Option, none, some,
  ReadFile, Option-cases, Sum-cases, All, Str, arith,
}
use rillan.Config.{Config, ProjectConfig, SystemConfig}
use rillan.Config.Load.{LoadError, overridden, default_config, load_with_mode}
use rillan.Config.Load.Places.{resolve_project_config_path}
use rillan.Config.Load.Project.{load_project}
use rillan.Config.Load.System.{
  SystemError, load_system, decrypt_system_policy, decrypt_system_policy_payload,
  reject_plaintext_system_config,
}
use rillan.Config.Load.System.Sealed.{IsSealed, load_system-IsSealed}
use rillan.Config.Validate.{ValidationMode, validate_for_mode, default_project_config}
use rillan.Config.Validate.Bound.{IsSafe, validate_for_mode-IsSafe}
use rillan.Modules.{LoadedModule}
use rillan.Runtime.{RuntimeSnapshot, via, build_runtime_snapshot}
use rillan.Runtime.Disk.{
  Disk, DiskError, RuntimeState, project_or_default, is_not_exist, system_if_any,
  default_project_modules_dir, project_root_from_config_path, build_from_loaded, build_from_disk,
}
use rillan.Runtime.Granted.{IsGranted, via-eq-inr, build_runtime_snapshot-IsGranted}
use rillan.Runtime.Trusted.{IsAugmented}
use rillan.Secrets.{KeyringError}

project_or_default-eq-inr :
    (r : LoadError ⊎ ProjectConfig) (project : ProjectConfig)
    → project_or_default r ≡ inr project
    → (r ≡ inr project) ⊎ ((r ≡ inl LoadError.not_found) × (project ≡ default_project_config))
project_or_default-eq-inr (inr given) project e = inl cc
project_or_default-eq-inr (inl LoadError.not_found) project e = inr (refl, cc)
project_or_default-eq-inr (inl LoadError.read_config) project e = absurd (cc)
project_or_default-eq-inr (inl LoadError.parse_config) project e = absurd (cc)
project_or_default-eq-inr (inl (LoadError.invalid err)) project e = absurd (cc)

is_not_exist-cases :
    (not_exist : KeyringError → Bool) (err : SystemError)
    → is_not_exist not_exist err ≡ true
    → (err ≡ SystemError.not_found)
      ⊎ ((k : KeyringError) × (err ≡ SystemError.keyring k) × (not_exist k ≡ true))
is_not_exist-cases not_exist SystemError.not_found e = inl refl
is_not_exist-cases not_exist (SystemError.keyring k) e = inr (k, refl, e)
is_not_exist-cases not_exist SystemError.read_system e = absurd (cc)
is_not_exist-cases not_exist SystemError.parse_envelope e = absurd (cc)
is_not_exist-cases not_exist SystemError.parse_system e = absurd (cc)
is_not_exist-cases not_exist (SystemError.plaintext key) e = absurd (cc)
is_not_exist-cases not_exist (SystemError.invalid_system err) e = absurd (cc)
is_not_exist-cases not_exist SystemError.bad_secret e = absurd (cc)
is_not_exist-cases not_exist SystemError.key_length e = absurd (cc)
is_not_exist-cases not_exist SystemError.bad_payload e = absurd (cc)
is_not_exist-cases not_exist SystemError.short_payload e = absurd (cc)
is_not_exist-cases not_exist SystemError.unsealed e = absurd (cc)
is_not_exist-cases not_exist SystemError.bad_policy e = absurd (cc)

module _ {S : Type 0} (disk : Disk S) (s : S) (system_config_path : Str) where
  -- The project of a file, or the default one where there is none.
  abbrev pub IsProject : Str → ProjectConfig → Type 0
  IsProject path project =
      (load_project disk.paths disk.decode_project path (disk.read_file path) ≡ inr project)
      ⊎ ((disk.read_file path ≡ ReadFile.absent) × (project ≡ default_project_config))

  -- The system of a file that is sealed. Without any there is no such file, or the keyring fails
  -- as where something does not exist.
  abbrev pub IsSystem : Option SystemConfig → Type 0
  IsSystem none =
      (disk.read_file system_config_path ≡ ReadFile.absent)
      ⊎ ((err : KeyringError) × (load_system disk.sealing disk.ring s
              (disk.read_file system_config_path)
            ≡ inl (SystemError.keyring err))
          × (disk.not_exist err ≡ true))
  IsSystem (some system) =
      (bytes : Str) × (disk.read_file system_config_path ≡ ReadFile.content bytes)
      × IsSealed disk.sealing disk.ring s bytes system

  load_project-absent :
      (path : Str) (file : ReadFile Str)
      → load_project disk.paths disk.decode_project path file ≡ inl LoadError.not_found
      → file ≡ ReadFile.absent
  unfolding load_project
  load_project-absent path ReadFile.absent e = refl
  load_project-absent path ReadFile.unreadable e = absurd (cc)
  load_project-absent path (ReadFile.content bytes) e = absurd (ground (arith, e))

  project_or_default-IsProject :
      (path : Str) (project : ProjectConfig)
      → project_or_default (load_project disk.paths disk.decode_project path (disk.read_file path))
        ≡ inr project
      → IsProject path project
  project_or_default-IsProject path project e =
      elim (project_or_default-eq-inr
        (load_project disk.paths disk.decode_project path (disk.read_file path)) project e) [
          | inl loaded ↦ inl loaded
          | inr (missing, same) ↦ inr (load_project-absent path (disk.read_file path) missing, same)
        ]

  load_system-absent :
      (file : ReadFile Str)
      → load_system disk.sealing disk.ring s file ≡ inl SystemError.not_found
      → file ≡ ReadFile.absent
  unfolding load_system decrypt_system_policy decrypt_system_policy_payload
      reject_plaintext_system_config
  load_system-absent ReadFile.absent e = refl
  load_system-absent ReadFile.unreadable e = absurd (cc)
  load_system-absent (ReadFile.content bytes) e = absurd (ground (arith, e))

  system_if_any-IsSystem :
      (system : Option SystemConfig)
      → system_if_any disk.not_exist
          (load_system disk.sealing disk.ring s (disk.read_file system_config_path))
        ≡ inr system
      → IsSystem system
  system_if_any-IsSystem system e =
      elim (Sum-cases (load_system disk.sealing disk.ring s (disk.read_file system_config_path))) [
        | inr (loaded, read) ↦
            let same : some loaded ≡ system = ground (arith, e, read) in
            subst IsSystem same (
              load_system-IsSealed disk.sealing disk.ring s (disk.read_file system_config_path)
                loaded read)
        | inl (err, failed) ↦
            let passed : is_not_exist disk.not_exist err ≡ true = ground (arith, e, failed) in
            let same : none ≡ system = ground (arith, e, failed, passed) in
            subst IsSystem same (elim (is_not_exist-cases disk.not_exist err passed) [
              | inl absent ↦ inl (load_system-absent _ (failed ∙ ap inl absent))
              | inr (k, is_keyring, flagged) ↦ inr (k, failed ∙ ap inl is_keyring, flagged)
            ])
      ]

  -- What a configuration that the daemon loads is.
  load_with_mode-IsSafe :
      (config_path : Str) (file : ReadFile Str) (cfg : Config)
      → load_with_mode disk.paths disk.decode_config disk.env disk.parse_ip ValidationMode.serve
          config_path file
        ≡ inr cfg
      → IsSafe disk.parse_ip cfg
  unfolding load_with_mode
  load_with_mode-IsSafe config_path ReadFile.absent cfg e = absurd (cc)
  load_with_mode-IsSafe config_path ReadFile.unreadable cfg e = absurd (cc)
  load_with_mode-IsSafe config_path (ReadFile.content bytes) cfg e =
      elim (Option-cases (disk.decode_config bytes default_config)) [
        | inl unparsed ↦ absurd (ground (arith, e, unparsed))
        | inr (decoded, parsed) ↦
            let made = overridden disk.paths disk.decode_config disk.env config_path decoded in
            elim (Option-cases (validate_for_mode disk.parse_ip made ValidationMode.serve)) [
              | inr (err, failed) ↦ absurd (ground (arith, e, parsed, failed))
              | inl valid ↦
                  let same : made ≡ cfg = ground (arith, e, parsed, valid) in
                  subst (IsSafe disk.parse_ip) same
                    (validate_for_mode-IsSafe disk.parse_ip made ValidationMode.serve valid).0
            ]
      ]

  -- The modules that the files grant, by a project and a system.
  abbrev pub IsGrantedAt : Str → ProjectConfig → Option SystemConfig → LoadedModule → Type 0
  IsGrantedAt path project system =
      IsGranted disk.paths.is_abs disk.paths.join disk.decode_manifest disk.sha256 disk.resolve
        project system (project_root_from_config_path disk.paths path)
        (disk.read_dir (default_project_modules_dir disk.paths path))

  -- What is known of a snapshot that is built for a configuration and the path of a project.
  abbrev pub IsBuiltOf :
      Config → Str → RuntimeSnapshot → ProjectConfig → Option SystemConfig → Type 0
  IsBuiltOf cfg path snapshot project system =
      IsProject path project
      × IsSystem system
      × All (IsGrantedAt path project system) snapshot.modules.modules
      × IsAugmented (IsGrantedAt path project system) cfg snapshot.config

  abbrev pub IsBuilt : Config → Str → RuntimeSnapshot → Type 0
  IsBuilt cfg path snapshot =
      IsBuiltOf cfg path snapshot snapshot.project_config snapshot.system_config

  build_from_loaded-IsBuilt :
      (audit_ledger_path : Str) (cfg : Config) (project : ProjectConfig)
      (system : Option SystemConfig) (path : Str) (state : RuntimeState)
      → IsProject path project
      → IsSystem system
      → build_from_loaded disk s system_config_path audit_ledger_path cfg project system path
        ≡ inr state
      → (state.project_config_path ≡ path) × IsBuilt cfg path state.snapshot
  unfolding build_from_loaded
  build_from_loaded-IsBuilt audit_ledger_path cfg project system path state p y e =
      let modules_dir = default_project_modules_dir disk.paths path in
      let root = project_root_from_config_path disk.paths path in
      let (snapshot, built, e1) =
        >>=-eq-inr
          (build_runtime_snapshot disk.paths.is_abs disk.paths.join disk.decode_manifest disk.sha256
            disk.resolve disk.ring disk.json s disk.ready cfg project system modules_dir root
            (disk.read_dir modules_dir) audit_ledger_path)
          _ e in
      let (granted, augmented, same_project, same_system) =
        build_runtime_snapshot-IsGranted disk.paths.is_abs disk.paths.join disk.decode_manifest
          disk.sha256 disk.resolve project system root (disk.read_dir modules_dir) disk.ring
          disk.json s disk.ready cfg modules_dir audit_ledger_path snapshot built in
      let whole : snapshot ≡ state.snapshot = (cc) in
      let given : IsBuiltOf cfg path snapshot project system = (p, y, granted, augmented) in
      let by_system = subst (IsBuiltOf cfg path snapshot project) (sym same_system) given in
      let by_project =
        subst (λ x. IsBuiltOf cfg path snapshot x snapshot.system_config) (sym same_project)
          by_system in
      ((cc), subst (IsBuilt cfg path) whole by_project)

  module _ (config_path : Str) where
    -- What a runtime is that is built from its files.
    pub record IsBooted (state : RuntimeState) : Type 0 where
      pub cfg : Config
      pub loaded :
          load_with_mode disk.paths disk.decode_config disk.env disk.parse_ip ValidationMode.serve
            config_path
            (disk.read_file config_path)
          ≡ inr cfg
      pub safe : IsSafe disk.parse_ip cfg
      pub at_path :
          state.project_config_path
          ≡ resolve_project_config_path disk.paths disk.machine cfg.index.root
      pub built : IsBuilt cfg state.project_config_path state.snapshot

    -- A runtime that is built from its files has a configuration that was loaded and is safe to
    -- bind; the project of the file at the path that is resolved from its root, or the default one
    -- if there is no such file; and the system of a file that is sealed. It is without a system only
    -- if there is no such file, or the keyring fails with an error that wraps os.ErrNotExist. Its
    -- modules are granted by that project and that system, and its providers are those of the
    -- configuration and adapters of such modules.
    pub build_from_disk-IsBooted :
        (audit_ledger_path : Str) (state : RuntimeState)
        → build_from_disk disk s system_config_path audit_ledger_path config_path ≡ inr state
        → IsBooted state
    unfolding build_from_disk
    build_from_disk-IsBooted audit_ledger_path state e =
        let (cfg, loading, e1) =
          >>=-eq-inr
            (via DiskError.of_config (
              load_with_mode disk.paths disk.decode_config disk.env disk.parse_ip
                ValidationMode.serve config_path (disk.read_file config_path)))
            _ e in
        let path = resolve_project_config_path disk.paths disk.machine cfg.index.root in
        let (project, with_project, e2) =
          >>=-eq-inr
            (project_or_default
              (load_project disk.paths disk.decode_project path (disk.read_file path)))
            _ e1 in
        let (system, with_system, e3) =
          >>=-eq-inr
            (system_if_any disk.not_exist
              (load_system disk.sealing disk.ring s (disk.read_file system_config_path)))
            _ e2 in
        let loaded = via-eq-inr DiskError.of_config _ _ loading in
        let (same, built) =
          build_from_loaded-IsBuilt audit_ledger_path cfg project system path state
            (project_or_default-IsProject path project with_project)
            (system_if_any-IsSystem system with_system) (via-eq-inr DiskError.of_build _ _ e3) in
        record {
          cfg = cfg;
          loaded = loaded;
          safe = load_with_mode-IsSafe config_path (disk.read_file config_path) cfg loaded;
          at_path = same;
          built = subst (λ p. IsBuilt cfg p state.snapshot) (sym same) built;
        }
