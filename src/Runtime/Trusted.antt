-- ===== src/Runtime/Trusted.antt =====
-- Where the providers of a runtime come from.
use mathlib.Core.List.{Memᴰ, append-nil}
use rillan.Base.{
  ◌≡◌, refl, sym, subst, inl, inr, fail_if, >>=-eq-inr, fail_if-eq-inr, ◌||◌, List, [], ◌∷◌, ◌++◌,
  All, is_empty, arith, Str, str_mem, trim_space, ltb_ℤ, Bool-cases,
}
use rillan.Config.{Config, LlmProviderConfig, schema_version_v2}
use rillan.Modules.{LoadedModule, Catalog}
use rillan.Modules.Manifest.{ModuleError}
use rillan.Modules.WellFormed.{IsIdentified}
use rillan.Runtime.{named_ids, add_adapters, add_modules, augment_runtime_config}

abbrev id_of : LlmProviderConfig → Str
id_of provider = provider.id

-- What the inner loop adds comes from the adapters, under identifiers that are free.
add_adapters-IsIdentified :
    (taken : List Str) (adapters out : List LlmProviderConfig) (after : List Str)
    → add_adapters taken adapters ≡ inr (out, after)
    → All (λ p. Memᴰ p adapters) out
      × ((more : List LlmProviderConfig)
          → IsIdentified id_of after more
          → IsIdentified id_of taken (out ++ more))
unfolding add_adapters
add_adapters-IsIdentified taken [] out after e =
    let no_out : out ≡ [] = (cc) in
    let same : after ≡ taken = (cc) in
    subst
      (λ o.
        All (λ p. Memᴰ p []) o
        × ((more : List LlmProviderConfig)
            → IsIdentified id_of after more
            → IsIdentified id_of taken (o ++ more)))
      (sym no_out) (tt, λ more h. subst (λ t. IsIdentified id_of t more) same h)
add_adapters-IsIdentified taken (adapter ∷ adapters) out after e =
    elim (Bool-cases (is_empty (trim_space adapter.id))) [
      | inl blank ↦
          let (members, identified) =
            add_adapters-IsIdentified taken adapters out after (ground (arith, e, blank)) in
          (deeper adapter adapters out members, identified)
      | inr named ↦
          let run = rw named at e in
          let (u, free, e1) =
            >>=-eq-inr (fail_if (str_mem (trim_space adapter.id) taken) ModuleError.collision) _
              run in
          let ((rest, last), added, e2) =
            >>=-eq-inr (add_adapters (trim_space adapter.id ∷ taken) adapters) _ e1 in
          let (members, identified) =
            add_adapters-IsIdentified (trim_space adapter.id ∷ taken) adapters rest last added in
          let whole : adapter ∷ rest ≡ out = (cc) in
          let end : last ≡ after = (cc) in
          subst
            (λ o.
              All (λ p. Memᴰ p (adapter ∷ adapters)) o
              × ((more : List LlmProviderConfig)
                  → IsIdentified id_of after more
                  → IsIdentified id_of taken (o ++ more)))
            whole
            (
              (Memᴰ.head refl, deeper adapter adapters rest members),
              λ more h. (
                named,
                fail_if-eq-inr _ _ free,
                identified more (subst (λ t. IsIdentified id_of t more) (sym end) h),
              ),
            )
    ]
  where
    deeper :
        (adapter : LlmProviderConfig) (adapters out : List LlmProviderConfig)
        → All (λ p. Memᴰ p adapters) out
        → All (λ p. Memᴰ p (adapter ∷ adapters)) out
    deeper adapter adapters [] h = tt
    deeper adapter adapters (p ∷ out) (member, h) =
        (Memᴰ.tail member, deeper adapter adapters out h)

-- An adapter of one of the modules of which something holds.
abbrev pub IsFrom : (LoadedModule → Type 0) → LlmProviderConfig → Type 0
IsFrom P provider = (loaded : LoadedModule) × P loaded × Memᴰ provider loaded.llm_adapters

add_modules-IsFrom :
    (P : LoadedModule → Type 0) (taken : List Str) (modules : List LoadedModule)
    (out : List LlmProviderConfig)
    → All P modules
    → add_modules taken modules ≡ inr out
    → All (IsFrom P) out × IsIdentified id_of taken out
unfolding add_modules
add_modules-IsFrom P taken [] out h e =
    let no_out : [] ≡ out = (cc) in
    subst (λ o. All (IsFrom P) o × IsIdentified id_of taken o) no_out (tt, tt)
add_modules-IsFrom P taken (loaded ∷ modules) out (p, h) e =
    let ((added, after), adding, e1) = >>=-eq-inr (add_adapters taken loaded.llm_adapters) _ e in
    let (rest, more, e2) = >>=-eq-inr (add_modules after modules) _ e1 in
    let whole : added ++ rest ≡ out = (cc) in
    let (members, identified) =
      add_adapters-IsIdentified taken loaded.llm_adapters added after adding in
    let (from, free) = add_modules-IsFrom P after modules rest h more in
    subst (λ o. All (IsFrom P) o × IsIdentified id_of taken o) whole
      (joined loaded p added rest members from, identified rest free)
  where
    joined :
        (loaded : LoadedModule)
        → P loaded
        → (added rest : List LlmProviderConfig) → All (λ q. Memᴰ q loaded.llm_adapters) added
        → All (IsFrom P) rest
        → All (IsFrom P) (added ++ rest)
    joined loaded p [] rest h k = k
    joined loaded p (q ∷ added) rest (member, h) k =
        ((loaded, p, member), joined loaded p added rest h k)

-- A configuration with some providers after its own, whose identifiers are free and differ.
abbrev pub IsAugmented : (LoadedModule → Type 0) → Config → Config → Type 0
IsAugmented P cfg augmented =
    (added : List LlmProviderConfig) × (augmented.llms.providers ≡ cfg.llms.providers ++ added)
    × IsIdentified id_of (named_ids cfg.llms.providers) added
    × All (IsFrom P) added

pub augment-IsAugmented :
    (P : LoadedModule → Type 0) (cfg augmented : Config) (catalog : Catalog)
    → All P catalog.modules
    → augment_runtime_config cfg catalog ≡ inr augmented
    → IsAugmented P cfg augmented
unfolding augment_runtime_config
augment-IsAugmented P cfg augmented catalog h e =
    elim (Bool-cases (ltb_ℤ cfg.schema_version schema_version_v2 || is_empty catalog.modules)) [
      | inl kept ↦
          let same : cfg ≡ augmented = ground (arith, e, kept) in
          subst (IsAugmented P cfg) same ([], sym (append-nil cfg.llms.providers), tt, tt)
      | inr changed ↦
          let run = rw changed at e in
          let (added, adding, e1) =
            >>=-eq-inr (add_modules (named_ids cfg.llms.providers) catalog.modules) _ run in
          let (from, free) =
            add_modules-IsFrom P (named_ids cfg.llms.providers) catalog.modules added h adding in
          let same : record (cfg) {
            llms = record (cfg.llms) { providers = cfg.llms.providers ++ added };
          }
              ≡ augmented =
            (cc) in
          subst (IsAugmented P cfg) same (added, refl, free, from)
    ]
