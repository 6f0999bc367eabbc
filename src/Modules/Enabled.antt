-- ===== src/Modules/Enabled.antt =====
-- Which modules are left by the filter.
use mathlib.Core.List.{Memᴰ}
use rillan.Base.{
  ◌≡◌, ◌≢◌, refl, sym, ◌∙◌, subst, inl, inr, false, ◌||◌, some, List, [], ◌∷◌, is_empty, All, arith,
  Str, str_eq, str_eq_iff, str_mem, lookup, trim_space, Bool-cases, Option-cases,
}
use rillan.Base.Map.{put, lookup-put, lookup-put_other}
use rillan.Modules.{LoadedModule, Catalog, by_id, filter_from, filter_enabled}

-- Entries under their identifiers, each a module of the list.
abbrev IsIndexed : List LoadedModule → List (Str × LoadedModule) → Type 0
IsIndexed modules entries =
    (key : Str) (loaded : LoadedModule)
    → lookup key entries ≡ some loaded
    → (loaded.id ≡ key) × Memᴰ loaded modules

put-IsIndexed :
    (modules : List LoadedModule) (loaded : LoadedModule) (entries : List (Str × LoadedModule))
    → Memᴰ loaded modules
    → IsIndexed modules entries
    → IsIndexed modules (put loaded.id loaded entries)
put-IsIndexed modules loaded entries member good key found e =
    elim (Bool-cases (str_eq loaded.id key)) [
      | inl same ↦
          let eq : loaded.id ≡ key = (str_eq_iff loaded.id key).0 same in
          let stored : lookup key (put loaded.id loaded entries) ≡ some loaded =
            rw (← eq) (lookup-put loaded.id loaded entries) in
          let twin : loaded ≡ found = (cc) in
          (rw (← twin) eq, subst (λ m. Memᴰ m modules) twin member)
      | inr other ↦ good key found (
          sym (
            lookup-put_other loaded.id key loaded entries
              (ground (arith, other, str_eq_iff loaded.id key)))
          ∙ e)
    ]

by_id-IsIndexed :
    (all more : List LoadedModule) (entries : List (Str × LoadedModule))
    → ((m : LoadedModule) → Memᴰ m more → Memᴰ m all)
    → IsIndexed all entries
    → IsIndexed all (by_id entries more)
unfolding by_id
by_id-IsIndexed all [] entries inside good = good
by_id-IsIndexed all (loaded ∷ more) entries inside good =
    by_id-IsIndexed all more (put loaded.id loaded entries)
      (λ m member. inside m (Memᴰ.tail member))
      (put-IsIndexed all loaded entries (inside loaded (Memᴰ.head refl)) good)

-- Modules whose identifiers are not in a set and differ from each other.
abbrev pub IsFresh : List Str → List LoadedModule → Type 0
IsFresh seen [] = Unit
IsFresh seen (loaded ∷ modules) =
    (str_mem loaded.id seen ≡ false) × IsFresh (loaded.id ∷ seen) modules

-- A module of the catalog that a list of identifiers names.
abbrev pub IsNamed : List LoadedModule → List Str → LoadedModule → Type 0
IsNamed modules raws loaded =
    Memᴰ loaded modules × ((raw : Str) × Memᴰ raw raws × (trim_space raw ≡ loaded.id))

weaken :
    (modules : List LoadedModule) (raw : Str) (raws : List Str) (out : List LoadedModule)
    → All (IsNamed modules raws) out
    → All (IsNamed modules (raw ∷ raws)) out
weaken modules raw raws [] named = tt
weaken modules raw raws (loaded ∷ out) ((member, (r, mentioned, e)), rest) =
    ((member, (r, Memᴰ.tail mentioned, e)), weaken modules raw raws out rest)

filter_from-IsNamed :
    (modules : List LoadedModule) (entries : List (Str × LoadedModule)) (seen raws : List Str)
    (out : List LoadedModule)
    → IsIndexed modules entries
    → filter_from entries seen raws ≡ some out
    → All (IsNamed modules raws) out × IsFresh seen out
unfolding filter_from
filter_from-IsNamed modules entries seen [] [] good e = (tt, tt)
filter_from-IsNamed modules entries seen [] (loaded ∷ out) good e = absurd (cc)
filter_from-IsNamed modules entries seen (raw ∷ raws) out good e =
    elim (Bool-cases (is_empty (trim_space raw) || str_mem (trim_space raw) seen)) [
      | inl passed ↦
          let (named, fresh) =
            filter_from-IsNamed modules entries seen raws out good (ground (arith, e, passed)) in
          (weaken modules raw raws out named, fresh)
      | inr taken ↦ elim (Option-cases (lookup (trim_space raw) entries)) [
        | inl absent ↦ absurd (ground (arith, e, taken, absent))
        | inr (loaded, found) ↦
            elim (Option-cases (filter_from entries (trim_space raw ∷ seen) raws)) [
              | inl failed ↦ absurd (ground (arith, e, taken, found, failed))
              | inr (rest, kept) ↦
                  let (named, fresh) =
                    filter_from-IsNamed modules entries (trim_space raw ∷ seen) raws rest good
                      kept in
                  let (id_eq, member) = good (trim_space raw) loaded found in
                  let whole : out ≡ loaded ∷ rest = ground (arith, e, taken, found, kept) in
                  subst (λ o. All (IsNamed modules (raw ∷ raws)) o × IsFresh seen o) (sym whole)
                    (
                      (
                        (member, (raw, Memᴰ.head refl, sym id_eq)),
                        weaken modules raw raws rest named,
                      ),
                      (
                        subst (λ i. str_mem i seen ≡ false) (sym id_eq) (ground (arith, taken)),
                        subst (λ i. IsFresh (i ∷ seen) rest) (sym id_eq) fresh,
                      ),
                    )
            ]
      ]
    ]

no_entry : (key : Str) (loaded : LoadedModule) → (lookup key [] ≢ some loaded)
unfolding lookup
no_entry key loaded = λ e. absurd (cc)

-- The modules that are left are modules of the catalog that the project enables by their trimmed
-- identifiers, no two of them with the same one.
pub filter_enabled-IsNamed :
    (catalog left : Catalog) (enabled : List Str)
    → filter_enabled catalog enabled ≡ some left
    → All (IsNamed catalog.modules enabled) left.modules × IsFresh [] left.modules
unfolding filter_enabled
filter_enabled-IsNamed catalog left [] e =
    let none_left : left.modules ≡ [] = (cc) in
    subst (λ o. All (IsNamed catalog.modules []) o × IsFresh [] o) (sym none_left) (tt, tt)
filter_enabled-IsNamed catalog left (raw ∷ raws) e =
    elim (Option-cases (filter_from (by_id [] catalog.modules) [] (raw ∷ raws))) [
      | inl failed ↦ absurd (ground (arith, e, failed))
      | inr (modules, kept) ↦
          let left_eq : left.modules ≡ modules = ground (arith, e, kept) in
          subst (λ o. All (IsNamed catalog.modules (raw ∷ raws)) o × IsFresh [] o) (sym left_eq)
            (filter_from-IsNamed catalog.modules (by_id [] catalog.modules) [] (raw ∷ raws) modules
              (by_id-IsIndexed catalog.modules catalog.modules [] (λ m member. member)
                (λ key loaded found. absurd (no_entry key loaded found)))
              kept)
    ]
