-- ===== src/Modules/Trusted.antt =====
-- What trust in a module is, stated without the search.
use mathlib.Core.List.{Memᴰ}
use mathlib.Core.Bool.{and-eq-true_iff}
use rillan.Base.{
  ◌≡◌, refl, sym, ◌∙◌, ap, subst, inl, inr, fail_if, or_error, >>=-eq-inr, fail_if-eq-inr,
  or_error-eq-inr, ◌&&◌, not, Bool, true, false, Option, none, some, List, [], ◌∷◌, All, find,
  is_empty, arith, Str, str_eq_iff, trim_space, Bool-cases, Option-cases,
}
use rillan.Config.{SystemConfig, TrustedModulePolicy}
use rillan.Modules.{LoadedModule, Catalog}
use rillan.Modules.Manifest.{ModuleError}
use rillan.Modules.Trust.{
  module_uses_stdio, canonical_project_root, is_trusted_by, find_module_trust, trusted_from,
  filter_trusted,
}

find-eq-some {ℓ} :
    {A : Type ℓ} (p : A → Bool) (xs : List A) (a : A)
    → find p xs ≡ some a
    → Memᴰ a xs × (p a ≡ true)
find-eq-some p [] a e = absurd (cc)
find-eq-some p (x ∷ xs) a e = elim (Bool-cases (p x)) [
  | inl here ↦
      let same : x ≡ a = ground (arith, e, here) in
      (Memᴰ.head (sym same), subst (λ y. p y ≡ true) same here)
  | inr other ↦
      let (member, holds) = find-eq-some p xs a (ground (arith, e, other)) in
      (Memᴰ.tail member, holds)
]

module _ (resolve : Str → Option Str) where
  -- An entry of the system's policy that trusts a module for a root, with stdio if it uses that.
  pub record IsTrusted (system : Option SystemConfig) (root : Str) (loaded : LoadedModule)
      : Type 0 where
    pub known : SystemConfig
    pub trust : TrustedModulePolicy
    pub loaded_system : system ≡ some known
    pub listed : Memᴰ trust known.policy.trusted_modules
    pub repo_root : canonical_project_root resolve trust.repo_root ≡ some root
    pub module_id : trim_space trust.module_id ≡ loaded.id
    pub digest : trim_space trust.manifest_sha256 ≡ loaded.manifest_sha256
    pub stdio : module_uses_stdio loaded ≡ true → trust.allow_stdio ≡ true

  trusted_root :
      (root : Str) (loaded : LoadedModule) (trust : TrustedModulePolicy)
      → is_trusted_by resolve root loaded trust ≡ true
      → (canonical_project_root resolve trust.repo_root ≡ some root)
        × (trim_space trust.module_id ≡ loaded.id)
        × (trim_space trust.manifest_sha256 ≡ loaded.manifest_sha256)
  unfolding is_trusted_by
  trusted_root root loaded trust e =
      elim (Option-cases (canonical_project_root resolve trust.repo_root)) [
        | inl absent ↦ absurd (ground (arith, e, absent))
        | inr (r, found) ↦
            let (same, rest) = (and-eq-true_iff _ _).0 (rw found at e) in
            let (i, d) = (and-eq-true_iff _ _).0 rest in
            (
              found ∙ ap some ((str_eq_iff r root).0 same),
              (str_eq_iff _ _).0 i,
              (str_eq_iff _ _).0 d,
            )
      ]

  found-IsTrusted :
      (system : Option SystemConfig) (root : Str) (loaded : LoadedModule)
      (trust : TrustedModulePolicy)
      → find_module_trust resolve system root loaded ≡ some trust
      → module_uses_stdio loaded && not trust.allow_stdio ≡ false
      → IsTrusted system root loaded
  unfolding find_module_trust
  found-IsTrusted none root loaded trust e stdio = absurd (cc)
  found-IsTrusted (some known) root loaded trust e stdio =
      let (member, holds) =
        find-eq-some (is_trusted_by resolve root loaded) known.policy.trusted_modules trust e in
      let (r, i, d) = trusted_root root loaded trust holds in
      record {
        known = known;
        trust = trust;
        loaded_system = refl;
        listed = member;
        repo_root = r;
        module_id = i;
        digest = d;
        stdio = λ uses. ground (arith, stdio, uses);
      }

  trusted_from-IsTrusted :
      (system : Option SystemConfig) (root : Str) (modules out : List LoadedModule)
      → trusted_from resolve system root modules ≡ inr out
      → All (IsTrusted system root) out × (out ≡ modules)
  unfolding trusted_from
  trusted_from-IsTrusted system root [] out e =
      let empty : [] ≡ out = (cc) in
      subst (λ o. All (IsTrusted system root) o × (o ≡ [])) empty (tt, refl)
  trusted_from-IsTrusted system root (loaded ∷ modules) out e =
      let (trust, found, e1) =
        >>=-eq-inr (or_error ModuleError.untrusted (find_module_trust resolve system root loaded)) _
          e in
      let (u, stdio, e2) =
        >>=-eq-inr
          (fail_if (module_uses_stdio loaded && not trust.allow_stdio) ModuleError.untrusted_stdio)
          _ e1 in
      let (rest, more, e3) = >>=-eq-inr (trusted_from resolve system root modules) _ e2 in
      let whole : loaded ∷ rest ≡ out = (cc) in
      let (all, same) = trusted_from-IsTrusted system root modules rest more in
      subst (λ o. All (IsTrusted system root) o × (o ≡ loaded ∷ modules)) whole
        (
          (
            found-IsTrusted system root loaded trust (or_error-eq-inr _ _ found)
                (fail_if-eq-inr _ _ stdio),
            all,
          ),
          ap (◌∷◌ loaded) same,
        )

  -- Trust for the root that the project's resolves to.
  abbrev pub IsTrustedAt : Option SystemConfig → Str → LoadedModule → Type 0
  IsTrustedAt system project_root loaded =
      (root : Str) × (canonical_project_root resolve project_root ≡ some root)
      × IsTrusted system root loaded

  nothing :
      (P : LoadedModule → Type 0) (modules : List LoadedModule)
      → is_empty modules ≡ true
      → All P modules
  nothing P [] e = tt
  nothing P (loaded ∷ modules) e = absurd (cc)

  at_root :
      (system : Option SystemConfig) (project_root root : Str)
      → canonical_project_root resolve project_root ≡ some root
      → (modules : List LoadedModule) → All (IsTrusted system root) modules
      → All (IsTrustedAt system project_root) modules
  at_root system project_root root e [] h = tt
  at_root system project_root root e (loaded ∷ modules) (trusted, more) =
      ((root, e, trusted), at_root system project_root root e modules more)

  -- What is left is the catalog, each module of which the system trusts for the project's root.
  pub filter_trusted-IsTrusted :
      (catalog left : Catalog) (project_root : Str) (system : Option SystemConfig)
      → filter_trusted resolve catalog project_root system ≡ inr left
      → (left.modules ≡ catalog.modules) × All (IsTrustedAt system project_root) left.modules
  unfolding filter_trusted
  filter_trusted-IsTrusted catalog left project_root system e =
      elim (Bool-cases (is_empty catalog.modules)) [
        | inl blank ↦
            let same : catalog ≡ left = ground (arith, e, blank) in
            subst
              (λ c. (c.modules ≡ catalog.modules) × All (IsTrustedAt system project_root) c.modules)
              same (refl, nothing (IsTrustedAt system project_root) catalog.modules blank)
        | inr filled ↦
            let run = rw filled at e in
            let (root, rooted, e1) =
              >>=-eq-inr
                (or_error ModuleError.no_root (canonical_project_root resolve project_root)) _
                run in
            let (modules, all, e2) =
              >>=-eq-inr (trusted_from resolve system root catalog.modules) _ e1 in
            let (trusted, same) = trusted_from-IsTrusted system root catalog.modules modules all in
            let left_eq : modules ≡ left.modules = (cc) in
            subst (λ ms. (ms ≡ catalog.modules) × All (IsTrustedAt system project_root) ms) left_eq
              (same, at_root system project_root root (or_error-eq-inr _ _ rooted) modules trusted)
      ]
