-- ===== src/Modules/Load.antt =====
-- The catalog of a project, from the directory of its modules. What os.ReadDir and os.ReadFile give
-- are data; yaml.Unmarshal, the digest and filepath.Join are parameters.
use rillan.Base.{
  ReadFile, ◌⊎◌, inl, inr, ◌>>=◌, ◌>>◌, fail_if, or_error, if◌then◌else◌, Bool, Option, List, [],
  ◌∷◌, Str, lit, str_mem, str_compare,
}
use rillan.Base.Sort.{sort_func}
use rillan.Modules.{LoadedModule, Catalog}
use rillan.Modules.Manifest.{Manifest, ModuleError, load_module_manifest}

pub record Entry : Type 0 where
  pub name : Str
  pub is_dir : Bool
  pub manifest : ReadFile Str

pub data Listing : Type 0 where
  missing failed : Listing
  listed : List Entry → Listing

module _ (is_abs : Str → Bool) (join : Str → Str → Str) (unmarshal : Str → Option Manifest)
    (sha256 : Str → Str) where
  -- One directory of a module, with the bytes of its manifest.
  unfoldable pub load_entry : Str → Entry → Str → ModuleError ⊎ LoadedModule
  load_entry modules_dir entry bytes = do
    manifest ← or_error ModuleError.unparsed (unmarshal bytes)
    load_module_manifest is_abs join (join modules_dir entry.name)
        (join (join modules_dir entry.name) (lit "module.yaml")) manifest (sha256 bytes)

  -- The rounds of the loop, with the set `seen`.
  unfoldable pub load_from : Str → List Str → List Entry → ModuleError ⊎ List LoadedModule
  load_from modules_dir seen [] = inr []
  load_from modules_dir seen (entry ∷ rest) =
      if entry.is_dir
      then elim entry.manifest [
        | ReadFile.absent ↦ load_from modules_dir seen rest
        | ReadFile.unreadable ↦ inl ModuleError.unread
        | ReadFile.content bytes ↦ do
          loaded ← load_entry modules_dir entry bytes
          fail_if (str_mem loaded.id seen) ModuleError.twice
          modules ← load_from modules_dir (loaded.id ∷ seen) rest
          inr (loaded ∷ modules)
      ]
      else load_from modules_dir seen rest

  unfoldable pub load_project_catalog : Str → Listing → ModuleError ⊎ Catalog
  load_project_catalog modules_dir Listing.missing =
      inr (record { modules_dir = modules_dir; modules = [] })
  load_project_catalog modules_dir Listing.failed = inl ModuleError.unread
  load_project_catalog modules_dir (Listing.listed entries) = do
    modules ← load_from modules_dir [] entries
    inr (record {
      modules_dir = modules_dir;
      modules = sort_func (λ a b. str_compare a.id b.id) modules;
    })
