-- ===== src/Modules/Loaded.antt =====
-- Which modules a catalog has, and what they have.
use mathlib.Core.List.{Memᴰ, Permᴰ}
use rillan.Base.{
  ReadFile, ◌≡◌, refl, sym, subst, ◌⊎◌, inl, inr, fail_if, or_error, >>=-eq-inr, fail_if-eq-inr,
  Bool, true, Option, List, [], ◌∷◌, All, arith, Str, str_mem, str_compare, Bool-cases,
}
use rillan.Base.Sort.{sort_func}
use rillan.Base.Sort.Laws.{IsSorted, sort_func-perm, sort_func-All, sort_func-IsSorted}
use rillan.Base.Sort.Order.{str_compare-IsOrder, on-IsOrder}
use rillan.Modules.{LoadedModule, Catalog}
use rillan.Modules.Enabled.{IsFresh}
use rillan.Modules.Load.{Entry, Listing, load_entry, load_from, load_project_catalog}
use rillan.Modules.Manifest.{Manifest, ModuleError}
use rillan.Modules.WellFormed.{IsModule, load_module_manifest-IsModule}

File-cases :
    (file : ReadFile Str)
    → (file ≡ ReadFile.absent)
      ⊎ ((file ≡ ReadFile.unreadable) ⊎ ((bytes : Str) × (file ≡ ReadFile.content bytes)))
File-cases ReadFile.absent = inl refl
File-cases ReadFile.unreadable = inr (inl refl)
File-cases (ReadFile.content bytes) = inr (inr (bytes, refl))

-- The entries of a directory that was listed.
abbrev pub entries_of : Listing → List Entry
entries_of Listing.missing = []
entries_of Listing.failed = []
entries_of (Listing.listed entries) = entries

module _ (sha256 : Str → Str) where
  -- A module of one of the directories, with the digest of its manifest.
  abbrev pub IsLoaded : List Entry → LoadedModule → Type 0
  IsLoaded listed loaded =
      IsModule loaded
      × ((entry : Entry) × (bytes : Str) × Memᴰ entry listed
          × (entry.is_dir ≡ true)
          × (entry.manifest ≡ ReadFile.content bytes)
          × (loaded.manifest_sha256 ≡ sha256 bytes))

  one_more :
      (entry : Entry) (listed : List Entry) (modules : List LoadedModule)
      → All (IsLoaded listed) modules
      → All (IsLoaded (entry ∷ listed)) modules
  one_more entry listed [] h = tt
  one_more entry listed (loaded ∷ modules)
        ((good, (found, bytes, member, dir, file, digest)), more) =
      (
        (good, (found, bytes, Memᴰ.tail member, dir, file, digest)),
        one_more entry listed modules more,
      )

  abbrev pub IsCatalog : List Entry → List LoadedModule → Type 0
  IsCatalog entries modules =
      All (IsLoaded entries) modules
      × IsSorted (λ a b. str_compare a.id b.id) modules
      × ((found : List LoadedModule) × Permᴰ modules found × IsFresh [] found)

  module _ (is_abs : Str → Bool) (join : Str → Str → Str) (unmarshal : Str → Option Manifest) where
    load_entry-IsModule :
        (dir : Str) (entry : Entry) (bytes : Str) (loaded : LoadedModule)
        → load_entry is_abs join unmarshal sha256 dir entry bytes ≡ inr loaded
        → IsModule loaded × (loaded.manifest_sha256 ≡ sha256 bytes)
    unfolding load_entry
    load_entry-IsModule dir entry bytes loaded e =
        let (manifest, read, e1) =
          >>=-eq-inr (or_error ModuleError.unparsed (unmarshal bytes)) _ e in
        load_module_manifest-IsModule is_abs join _ _ manifest (sha256 bytes) loaded e1

    load_from-IsLoaded :
        (dir : Str) (seen : List Str) (listed : List Entry) (modules : List LoadedModule)
        → load_from is_abs join unmarshal sha256 dir seen listed ≡ inr modules
        → All (IsLoaded listed) modules × IsFresh seen modules
    unfolding load_from
    load_from-IsLoaded dir seen [] [] e = (tt, tt)
    load_from-IsLoaded dir seen [] (loaded ∷ modules) e = absurd (cc)
    load_from-IsLoaded dir seen (entry ∷ rest) modules e = elim (Bool-cases entry.is_dir) [
      | inr file ↦
          let (all, fresh) = load_from-IsLoaded dir seen rest modules (ground (arith, e, file)) in
          (one_more entry rest modules all, fresh)
      | inl is_dir ↦ elim (File-cases entry.manifest) [
        | inl none_there ↦
            let (all, fresh) =
              load_from-IsLoaded dir seen rest modules (ground (arith, e, is_dir, none_there)) in
            (one_more entry rest modules all, fresh)
        | inr (inl unreadable) ↦ absurd (ground (arith, e, is_dir, unreadable))
        | inr (inr (bytes, file)) ↦
            let run = rw (is_dir, file) at e in
            let (loaded, read, e1) =
              >>=-eq-inr (load_entry is_abs join unmarshal sha256 dir entry bytes) _ run in
            let (u, new, e2) =
              >>=-eq-inr (fail_if (str_mem loaded.id seen) ModuleError.twice) _ e1 in
            let (others, more, e3) =
              >>=-eq-inr (load_from is_abs join unmarshal sha256 dir (loaded.id ∷ seen) rest) _
                e2 in
            let (good, digest) = load_entry-IsModule dir entry bytes loaded read in
            let (all, fresh) = load_from-IsLoaded dir (loaded.id ∷ seen) rest others more in
            let whole : loaded ∷ others ≡ modules = (cc) in
            subst (λ ms. All (IsLoaded (entry ∷ rest)) ms × IsFresh seen ms) {x = loaded ∷ others}
              whole
              (
                (
                  (good, (entry, bytes, Memᴰ.head refl, is_dir, file, digest)),
                  one_more entry rest others all,
                ),
                (fail_if-eq-inr _ _ new, fresh),
              )
      ]
    ]

    -- A catalog that is loaded has, ordered by identifier, modules with different identifiers, each
    -- from a directory with a manifest whose digest it has. Such a module has an identifier, a
    -- version and an entry point; its adapters and servers have identifiers that differ, and each
    -- has an endpoint or a command, as its transport asks for, and an adapter a backend.
    pub load_project_catalog-IsLoaded :
        (dir : Str) (listing : Listing) (catalog : Catalog)
        → load_project_catalog is_abs join unmarshal sha256 dir listing ≡ inr catalog
        → IsCatalog (entries_of listing) catalog.modules
    unfolding load_project_catalog
    load_project_catalog-IsLoaded dir Listing.missing catalog e =
        let empty : catalog.modules ≡ [] = (cc) in
        subst (IsCatalog []) (sym empty) (tt, tt, ([], Permᴰ.nil, tt))
    load_project_catalog-IsLoaded dir Listing.failed catalog e = absurd (cc)
    load_project_catalog-IsLoaded dir (Listing.listed entries) catalog e =
        let (modules, read, e1) =
          >>=-eq-inr (load_from is_abs join unmarshal sha256 dir [] entries) _ e in
        let (all, fresh) = load_from-IsLoaded dir [] entries modules read in
        let by_id = λ (a b : LoadedModule). str_compare a.id b.id in
        let sorted : sort_func by_id modules ≡ catalog.modules = (cc) in
        subst (IsCatalog entries) sorted (
          sort_func-All by_id (IsLoaded entries) modules all,
          sort_func-IsSorted by_id (on-IsOrder (λ m. m.id) str_compare-IsOrder) modules,
          (modules, sort_func-perm by_id modules, fresh),
        )
