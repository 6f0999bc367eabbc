-- ===== src/Runtime/Granted.antt =====
-- What the modules of a runtime had to pass.
use mathlib.Core.List.{Memᴰ}
use rillan.Base.{
  ◌≡◌, sym, subst, ◌⊎◌, inl, inr, or_error, >>=-eq-inr, or_error-eq-inr, Bool, Option, List, [],
  ◌∷◌, All, Str, trim_space,
}
use rillan.Base.Member.{of_mem-All}
use rillan.Config.{Config, ProjectConfig, SystemConfig}
use rillan.Config.Resolve.{resolve_host}
use rillan.Modules.{LoadedModule, Catalog, filter_enabled}
use rillan.Modules.Enabled.{IsNamed, filter_enabled-IsNamed}
use rillan.Modules.Load.{Listing, load_project_catalog}
use rillan.Modules.Loaded.{IsLoaded, entries_of, load_project_catalog-IsLoaded}
use rillan.Modules.Manifest.{Manifest, ModuleError}
use rillan.Modules.Trust.{filter_trusted}
use rillan.Modules.Trusted.{IsTrustedAt, filter_trusted-IsTrusted}
use rillan.Providers.{Provider, new_host, default_provider}
use rillan.Runtime.{
  BuildError, RuntimeSnapshot, via, augment_runtime_config, runtime_config, build_runtime_snapshot,
}
use rillan.Runtime.Trusted.{IsAugmented, augment-IsAugmented}
use rillan.Secrets.{Keyring, Codec}

pub via-eq-inr : {E F A : Type 0} (f : E → F) (m : E ⊎ A) (a : A) → via f m ≡ inr a → m ≡ inr a
via-eq-inr f (inl e) a h = absurd (cc)
via-eq-inr f (inr b) a h = cc

module _ (is_abs : Str → Bool) (join : Str → Str → Str) (unmarshal : Str → Option Manifest)
    (sha256 : Str → Str) (resolve : Str → Option Str) (project : ProjectConfig)
    (system : Option SystemConfig) (project_root : Str) (listing : Listing) where
  -- A module that is complete and in the directory, enabled by the project, and trusted by the
  -- system for the project's root with the digest of its manifest, and with stdio if it uses that.
  abbrev pub IsGranted : LoadedModule → Type 0
  IsGranted loaded =
      IsLoaded sha256 (entries_of listing) loaded
      × ((raw : Str) × Memᴰ raw project.modules_enabled × (trim_space raw ≡ loaded.id))
      × IsTrustedAt resolve system project_root loaded

  modules-IsGranted :
      (found modules : List LoadedModule)
      → All (IsLoaded sha256 (entries_of listing)) found
      → All (IsNamed found project.modules_enabled) modules
      → All (IsTrustedAt resolve system project_root) modules
      → All IsGranted modules
  modules-IsGranted found [] loaded named trusted = tt
  modules-IsGranted found (m ∷ modules) loaded ((member, enabled), named) (t, trusted) = (
    (of_mem-All (IsLoaded sha256 (entries_of listing)) found loaded member, enabled, t),
    modules-IsGranted found modules loaded named trusted,
  )

  runtime_config-IsGranted :
      (cfg : Config) (modules_dir : Str) (discovered trusted : Catalog) (augmented : Config)
      → runtime_config is_abs join unmarshal sha256 resolve cfg project system modules_dir
          project_root listing
        ≡ inr (discovered, trusted, augmented)
      → All IsGranted trusted.modules × IsAugmented IsGranted cfg augmented
  unfolding runtime_config
  runtime_config-IsGranted cfg modules_dir discovered trusted augmented e =
      let (found, loading, e1) =
        >>=-eq-inr (load_project_catalog is_abs join unmarshal sha256 modules_dir listing) _ e in
      let (enabled, enabling, e2) =
        >>=-eq-inr (or_error ModuleError.not_found (filter_enabled found project.modules_enabled)) _
          e1 in
      let (left, trusting, e3) =
        >>=-eq-inr (filter_trusted resolve enabled project_root system) _ e2 in
      let (config, augmenting, e4) = >>=-eq-inr (augment_runtime_config cfg left) _ e3 in
      let (loaded, _, _) =
        load_project_catalog-IsLoaded sha256 is_abs join unmarshal modules_dir listing found
          loading in
      let (named, _) =
        filter_enabled-IsNamed found enabled project.modules_enabled
          (or_error-eq-inr _ _ enabling) in
      let (same, trust) =
        filter_trusted-IsTrusted resolve enabled left project_root system trusting in
      let granted =
        modules-IsGranted found.modules left.modules loaded
          (subst (All (IsNamed found.modules project.modules_enabled)) (sym same) named) trust in
      let left_eq : left ≡ trusted = (cc) in
      let config_eq : config ≡ augmented = (cc) in
      (
        subst (λ c. All IsGranted c.modules) left_eq granted,
        subst (IsAugmented IsGranted cfg) config_eq
            (augment-IsAugmented IsGranted cfg config left granted augmenting),
      )

  module _ {S : Type 0} (ring : Keyring S) (json : Codec) (s : S)
      (ready : Provider → Option Str) where
    -- A runtime snapshot has only modules that are granted: complete and in the directory of the
    -- project, enabled by the project, and trusted by the system for the project's root with the
    -- digest of their manifest, and with stdio if an adapter uses that. Its providers are those of
    -- the configuration and after them adapters of such modules, no two with the same identifier
    -- and none with that of a provider of the configuration. It keeps the project and the system
    -- that it is built from.
    pub build_runtime_snapshot-IsGranted :
        (cfg : Config) (modules_dir audit_ledger_path : Str) (snapshot : RuntimeSnapshot)
        → build_runtime_snapshot is_abs join unmarshal sha256 resolve ring json s ready cfg project
            system modules_dir project_root listing audit_ledger_path
          ≡ inr snapshot
        → All IsGranted snapshot.modules.modules
          × IsAugmented IsGranted cfg snapshot.config
          × (snapshot.project_config ≡ project)
          × (snapshot.system_config ≡ system)
    unfolding build_runtime_snapshot
    build_runtime_snapshot-IsGranted cfg modules_dir audit_ledger_path snapshot e =
        let ((discovered, trusted, augmented), preparing, e1) =
          >>=-eq-inr
            (via BuildError.of_module (
              runtime_config is_abs join unmarshal sha256 resolve cfg project system modules_dir
                project_root listing))
            _ e in
        let (host_config, resolving, e2) =
          >>=-eq-inr (via BuildError.of_resolution (resolve_host ring json s augmented project)) _
            e1 in
        let (host, hosting, e3) = >>=-eq-inr (via BuildError.of_host (new_host host_config)) _ e2 in
        let (provider, providing, e4) =
          >>=-eq-inr (via BuildError.of_host (default_provider host)) _ e3 in
        let (granted, from) =
          runtime_config-IsGranted cfg modules_dir discovered trusted augmented
            (via-eq-inr BuildError.of_module _ _ preparing) in
        let modules_eq : trusted ≡ snapshot.modules = (cc) in
        let config_eq : augmented ≡ snapshot.config = (cc) in
        (
          subst (λ c. All IsGranted c.modules) modules_eq granted,
          subst (IsAugmented IsGranted cfg) config_eq from,
          (cc),
          (cc),
        )
