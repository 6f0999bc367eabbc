-- ===== src/Modules.antt =====
-- internal/modules/catalog.go: the modules of a project, and those of them that are enabled.
pub mod Enabled
pub mod Load
pub mod Loaded
pub mod Manifest
mod Tests
pub mod Trust
pub mod Trusted
pub mod WellFormed
use rillan.Base.{
  Bool, true, false, if◌then◌else◌, ◌||◌, Option, none, some, List, [], ◌∷◌, is_empty, Str, str_mem,
  lookup, trim_space,
}
use rillan.Base.Map.{put}
use rillan.Config.{LlmProviderConfig, McpServerConfig}

pub record LspServerConfig : Type 0 where
  pub id : Str
  pub command : List Str
  pub languages : List Str

pub record LoadedModule : Type 0 where
  pub id : Str
  pub display_name : Str
  pub version : Str
  pub root_path : Str
  pub manifest_sha256 : Str
  pub manifest_path : Str
  pub entrypoint : List Str
  pub llm_adapters : List LlmProviderConfig
  pub mcp_servers : List McpServerConfig
  pub lsp_servers : List LspServerConfig

pub record Catalog : Type 0 where
  pub modules_dir : Str
  pub modules : List LoadedModule

-- The map `byID`, where a later module takes the place of an earlier one.
unfoldable pub by_id : List (Str × LoadedModule) → List LoadedModule → List (Str × LoadedModule)
by_id entries [] = entries
by_id entries (loaded ∷ modules) = by_id (put loaded.id loaded entries) modules

-- The rounds of the loop, with the set `seen`; none for a module that is not there.
unfoldable pub filter_from :
    List (Str × LoadedModule) → List Str → List Str → Option (List LoadedModule)
filter_from entries seen [] = some []
filter_from entries seen (raw ∷ raws) =
    let id = trim_space raw in
    let skipped = filter_from entries seen raws in
    let kept = filter_from entries (id ∷ seen) raws in
    if is_empty id || str_mem id seen then skipped else elim (lookup id entries) [
      | none ↦ none
      | some loaded ↦ elim kept [ none ↦ none | some modules ↦ some (loaded ∷ modules) ]
    ]

unfoldable pub filter_enabled : Catalog → List Str → Option Catalog
unfolding by_id filter_from
filter_enabled catalog [] = some (record (catalog) { modules = [] })
filter_enabled catalog (raw ∷ raws) =
    elim (filter_from (by_id [] catalog.modules) [] (raw ∷ raws)) [
      | none ↦ none
      | some modules ↦ some (record (catalog) { modules = modules })
    ]
