-- ===== src/Modules/Trust.antt =====
-- Which modules the system trusts for a repository. filepath.Abs with EvalSymlinks is the parameter
-- `resolve`, none for an error.
use rillan.Base.{
  ◌&&◌, not, ◌⊎◌, inr, ◌>>=◌, ◌>>◌, fail_if, or_error, if◌then◌else◌, Bool, false, Option, none,
  some, List, [], ◌∷◌, any, find, is_empty, Str, str_eq, trim_space,
}
use rillan.Config.{SystemConfig, TrustedModulePolicy, transport_stdio}
use rillan.Modules.{LoadedModule, Catalog}
use rillan.Modules.Manifest.{ModuleError}

unfoldable pub module_uses_stdio : LoadedModule → Bool
module_uses_stdio loaded =
    any (λ a. str_eq (trim_space a.transport) transport_stdio) loaded.llm_adapters

module _ (resolve : Str → Option Str) where
  unfoldable pub canonical_project_root : Str → Option Str
  canonical_project_root root = if is_empty (trim_space root) then none else resolve root

  abbrev is_root : Str → Option Str → Bool
  is_root project_root none = false
  is_root project_root (some root) = str_eq root project_root

  -- The test of a round of the loop of `findModuleTrust`.
  unfoldable pub is_trusted_by : Str → LoadedModule → TrustedModulePolicy → Bool
  is_trusted_by project_root loaded trust =
      is_root project_root (canonical_project_root trust.repo_root)
      && (str_eq (trim_space trust.module_id) loaded.id
          && str_eq (trim_space trust.manifest_sha256) loaded.manifest_sha256)

  unfoldable pub find_module_trust :
      Option SystemConfig → Str → LoadedModule → Option TrustedModulePolicy
  find_module_trust none project_root loaded = none
  find_module_trust (some system) project_root loaded =
      find (is_trusted_by project_root loaded) system.policy.trusted_modules

  unfoldable pub trusted_from :
      Option SystemConfig → Str → List LoadedModule → ModuleError ⊎ List LoadedModule
  trusted_from system project_root [] = inr []
  trusted_from system project_root (loaded ∷ modules) = do
    trust ← or_error ModuleError.untrusted (find_module_trust system project_root loaded)
    fail_if (module_uses_stdio loaded && not trust.allow_stdio) ModuleError.untrusted_stdio
    rest ← trusted_from system project_root modules
    inr (loaded ∷ rest)

  -- `project_root` is what `ProjectRootFromConfigPath` gives.
  unfoldable pub filter_trusted : Catalog → Str → Option SystemConfig → ModuleError ⊎ Catalog
  filter_trusted catalog project_root system = if is_empty catalog.modules then inr catalog else do
    root ← or_error ModuleError.no_root (canonical_project_root project_root)
    modules ← trusted_from system root catalog.modules
    inr (record (catalog) { modules = modules })
