-- ===== src/Providers/Laws.antt =====
-- What a host that was built serves.
use mathlib.Core.Sum.{inr-injective}
use rillan.Base.{
  ◌≡◌, inl, inr, sym, ap, ◌∙◌, subst, none, some, List, [], ◌∷◌, arith, Str, All, lookup,
  trim_space, Sum-cases, Option-cases,
}
use rillan.Base.Map.{put, lookup-put, lookup-put_other}
use rillan.Base.Trim.{trim_space-trim_space}
use rillan.Config.{RuntimeProviderAdapterConfig, RuntimeProviderHostConfig}
use rillan.Providers.{Provider, Host, new_adapter, host_all, new_host, provider, default_provider}

-- An adapter stands in a map of providers, under its trimmed identifier.
abbrev IsIn : List (Str × Provider) → RuntimeProviderAdapterConfig → Type 0
IsIn hosted cfg =
    (p : Provider) × (new_adapter cfg ≡ inr p) × (lookup (trim_space cfg.id) hosted ≡ some p)

-- What was hosted stays as it was, and every adapter is in.
abbrev Grows :
    List RuntimeProviderAdapterConfig → List (Str × Provider) → List (Str × Provider) → Type 0
Grows cfgs before after =
    ((id : Str) (p : Provider) → lookup id before ≡ some p → lookup id after ≡ some p)
    × All (IsIn after) cfgs

host_step :
    (cfg : RuntimeProviderAdapterConfig) (cfgs : List RuntimeProviderAdapterConfig)
    (hosted after : List (Str × Provider))
    → host_all (cfg ∷ cfgs) hosted ≡ inr after
    → (p : Provider) × (new_adapter cfg ≡ inr p)
      × (lookup (trim_space cfg.id) hosted ≡ none)
      × (host_all cfgs (put (trim_space cfg.id) p hosted) ≡ inr after)
unfolding host_all
host_step cfg cfgs hosted after e = elim (Option-cases (lookup (trim_space cfg.id) hosted)) [
  | inr (q, twice) ↦ absurd (ground (arith, e, twice))
  | inl free ↦ elim (Sum-cases (new_adapter cfg)) [
    | inl (err, failed) ↦ absurd (ground (arith, e, free, failed))
    | inr (p, made) ↦ (p, made, free, ground (arith, e, free, made))
  ]
]

host_all-Grows :
    (cfgs : List RuntimeProviderAdapterConfig) (hosted after : List (Str × Provider))
    → host_all cfgs hosted ≡ inr after
    → Grows cfgs hosted after
unfolding host_all
host_all-Grows [] hosted after e = (λ id p h. ap (lookup id) (sym (inr-injective _ _ e)) ∙ h, tt)
host_all-Grows (cfg ∷ cfgs) hosted after e =
    let (p, made, free, rest) = host_step cfg cfgs hosted after e in
    let name = trim_space cfg.id in
    let (kept, all_in) = host_all-Grows cfgs (put name p hosted) after rest in
    (
      λ id q h. kept id q (
          lookup-put_other name id p hosted
            (λ same. absurd (ground (arith, free, h, ap (λ i. lookup i hosted) same)))
          ∙ h),
      ((p, made, kept name p (lookup-put name p hosted)), all_in),
    )

pub provider_found :
    (h : Host) (id : Str) (p : Provider)
    → lookup (trim_space id) h.providers ≡ some p
    → provider h id ≡ inr p
unfolding provider
provider_found h id p e = rw (e, provider)

-- An adapter is served under its identifier.
abbrev pub IsServed : Host → RuntimeProviderAdapterConfig → Type 0
IsServed h cfg = (p : Provider) × (new_adapter cfg ≡ inr p) × (provider h cfg.id ≡ inr p)

All-IsServed :
    (h : Host) (cfgs : List RuntimeProviderAdapterConfig)
    → All (IsIn h.providers) cfgs
    → All (IsServed h) cfgs
All-IsServed h [] t = tt
All-IsServed h (cfg ∷ cfgs) ((p, made, found), t) =
    ((p, made, provider_found h cfg.id p found), All-IsServed h cfgs t)

host_of :
    (cfg : RuntimeProviderHostConfig) (h : Host) (hosted : List (Str × Provider))
    → new_host cfg ≡ inr h
    → host_all cfg.providers [] ≡ inr hosted
    → (p : Provider) × (lookup (trim_space cfg.default) hosted ≡ some p)
      × (record { default_provider_id = trim_space cfg.default; providers = hosted } ≡ h)
unfolding new_host
host_of cfg h hosted e built = elim (Option-cases (lookup (trim_space cfg.default) hosted)) [
  | inl missing ↦ absurd (ground (arith, e, built, missing))
  | inr (p, found) ↦ (p, found, ground (arith, e, built, found))
]

-- A host that was built serves its default provider, and each adapter of its configuration under
-- the adapter's identifier: the provider that the adapter makes.
pub new_host-serves :
    (cfg : RuntimeProviderHostConfig) (h : Host)
    → new_host cfg ≡ inr h
    → ((p : Provider) × (default_provider h ≡ inr p) × (provider h cfg.default ≡ inr p))
      × All (IsServed h) cfg.providers
unfolding new_host default_provider
new_host-serves cfg h e = elim (Sum-cases (host_all cfg.providers [])) [
  | inl (err, failed) ↦ absurd (ground (arith, e, failed))
  | inr (hosted, built) ↦
      let (p, found, same) = host_of cfg h hosted e built in
      subst
        (λ (x : Host).
          ((p : Provider) × (default_provider x ≡ inr p) × (provider x cfg.default ≡ inr p))
          × All (IsServed x) cfg.providers)
        same
        (let x : Host = record {
          default_provider_id = trim_space cfg.default;
          providers = hosted;
        } in
          (
            (
              p,
              provider_found x (trim_space cfg.default) p
                  (ap (λ i. lookup i hosted) (trim_space-trim_space cfg.default) ∙ found),
              provider_found x cfg.default p found,
            ),
            All-IsServed x cfg.providers (host_all-Grows cfg.providers [] hosted built).1,
          ))
]
