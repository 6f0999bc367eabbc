-- ===== src/Config/Resolve/Host.antt =====
-- What the runtime hosts: providers that the project allows, and the selected one among them.
use mathlib.Core.Sum.{inr-injective}
use rillan.Base.{
  ◌≡◌, ◌≢◌, ◌⊎◌, inl, inr, sym, ap, ◌∙◌, subst, Bool, true, false, not, ◌&&◌, ◌||◌, some, List, [],
  ◌∷◌, arith, Str, All, any, str_eq, str_eq_iff, str_mem, is_empty, trim_space, Sum-cases,
  Option-cases, Bool-cases,
}
use rillan.Base.Trim.{trim_space-trim_space}
use rillan.Config.{
  Config, ProjectConfig, LlmProviderConfig, ResolvedLlmProvider, RuntimeProviderAdapterConfig,
  RuntimeProviderHostConfig,
}
use rillan.Secrets.{Keyring, Codec}
use rillan.Config.Resolve.{
  resolved_of, provider_with, is_legacy, selected_id, resolve_active_llm_provider,
  resolve_llm_provider_by_id, make_allowlist, resolve_adapter, adapter_for, adapters_from,
  resolve_host,
}

provider_with-id :
    (id : Str) (providers : List LlmProviderConfig) (p : LlmProviderConfig)
    → provider_with id providers ≡ some p
    → trim_space p.id ≡ id
unfolding provider_with
provider_with-id id [] p e = cc
provider_with-id id (q ∷ providers) p e =
    ground (arith, e, str_eq_iff (trim_space q.id) id, provider_with-id id providers p)

mem_allowlist :
    (values : List Str) (id : Str)
    → any (λ c. str_eq (trim_space c) id) values ≡ true
    → id ≢ []
    → str_mem id (make_allowlist values) ≡ true
unfolding make_allowlist str_mem
mem_allowlist [] id h ne = cc
mem_allowlist (c ∷ values) id h ne =
    ground (arith, h, ne, mem_allowlist values id, str_eq_iff (trim_space c) id)

-- An adapter that the allowlist lets through; an empty one lets all through.
abbrev pub IsOffered : List Str → RuntimeProviderAdapterConfig → Type 0
IsOffered allowed a = (allowed ≡ []) ⊎ (str_mem (trim_space a.id) allowed ≡ true)

abbrev skips : List Str → Str → Bool
skips allowed id = is_empty id || (not (is_empty allowed) && not (str_mem id allowed))

-- What holds of the adapters made.
abbrev IsHosting :
    List Str → Str → List LlmProviderConfig → List RuntimeProviderAdapterConfig → Type 0
IsHosting allowed selected providers adapters =
    All (IsOffered allowed) adapters
    × ((p : LlmProviderConfig)
        → provider_with selected providers ≡ some p
        → skips allowed selected ≡ false
        → any (λ a. str_eq (trim_space a.id) selected) adapters ≡ true)

module _ {S : Type 0} (ring : Keyring S) (json : Codec) (s : S) (cfg : Config)
    (current : is_legacy cfg ≡ false) where
  resolve_adapter-id :
      (selected : ResolvedLlmProvider) (a : RuntimeProviderAdapterConfig)
      → resolve_adapter ring json s cfg selected ≡ inr a
      → a.id ≡ selected.id
  unfolding resolve_adapter
  resolve_adapter-id selected a e = ground (arith, e)

  resolved-id :
      (id : Str) (r : ResolvedLlmProvider)
      → resolve_llm_provider_by_id cfg id ≡ inr r
      → trim_space r.id ≡ trim_space id
  unfolding resolve_llm_provider_by_id
  resolved-id id r e = elim (Option-cases (provider_with (trim_space id) cfg.llms.providers)) [
    | inl missing ↦ absurd (ground (arith, e, current, missing))
    | inr (p, found) ↦
        let same : resolved_of p ≡ r = ground (arith, e, current, found) in
        ap (λ (x : ResolvedLlmProvider). trim_space x.id) (sym same)
        ∙ provider_with-id (trim_space id) cfg.llms.providers p found
  ]

  adapter_for-id :
      (id : Str) (a : RuntimeProviderAdapterConfig)
      → adapter_for ring json s cfg id ≡ inr a
      → trim_space a.id ≡ trim_space id
  unfolding adapter_for
  adapter_for-id id a e = elim (Sum-cases (resolve_llm_provider_by_id cfg id)) [
    | inl (err, failed) ↦ absurd (ground (arith, e, failed))
    | inr (r, found) ↦
        let made : resolve_adapter ring json s cfg r ≡ inr a = ground (arith, e, found) in
        ap trim_space (resolve_adapter-id r a made) ∙ resolved-id id r found
  ]

  adapters_from-IsHosting :
      (allowed : List Str) (selected : Str) (providers : List LlmProviderConfig)
      (adapters : List RuntimeProviderAdapterConfig)
      → adapters_from ring json s cfg allowed selected providers ≡ inr adapters
      → IsHosting allowed selected providers adapters
  unfolding adapters_from provider_with
  adapters_from-IsHosting allowed selected [] adapters e =
      subst (IsHosting allowed selected []) (inr-injective _ _ e) (tt, λ p bad h. cc)
  adapters_from-IsHosting allowed selected (provider ∷ providers) adapters e =
      let id = trim_space provider.id in
      elim (Bool-cases (skips allowed id)) [
        | inl skipped ↦
            let rest : adapters_from ring json s cfg allowed selected providers ≡ inr adapters =
              ground (arith, e, skipped) in
            let (offered, hosted) =
              adapters_from-IsHosting allowed selected providers adapters rest in
            (
              offered,
              λ p found h. elim (Bool-cases (str_eq id selected)) [
                | inl same ↦ absurd (
                    ground
                      (arith, skipped, h, ap (skips allowed) ((str_eq_iff id selected).0 same)))
                | inr other ↦ hosted p (ground (arith, found, other)) h
              ],
            )
        | inr kept ↦ elim (Sum-cases (adapter_for ring json s cfg id)) [
          | inl (err, failed) ↦ elim (Bool-cases (str_eq id selected)) [
            | inl same ↦ absurd (ground (arith, e, kept, failed, same))
            | inr other ↦
                let rest : adapters_from ring json s cfg allowed selected providers ≡ inr adapters =
                  ground (arith, e, kept, failed, other) in
                let (offered, hosted) =
                  adapters_from-IsHosting allowed selected providers adapters rest in
                (offered, λ p found h. hosted p (ground (arith, found, other)) h)
          ]
          | inr (a, made) ↦
              elim (Sum-cases (adapters_from ring json s cfg allowed selected providers)) [
                | inl (err, failed) ↦ absurd (ground (arith, e, kept, made, failed))
                | inr (more, rest) ↦
                    let (offered, hosted) =
                      adapters_from-IsHosting allowed selected providers more rest in
                    let name : trim_space a.id ≡ id =
                      adapter_for-id id a made ∙ trim_space-trim_space provider.id in
                    let same : a ∷ more ≡ adapters = ground (arith, e, kept, made, rest) in
                    let test = ap (λ x. str_eq x selected) name in
                    subst (IsHosting allowed selected (provider ∷ providers)) same (
                      (ground (arith, kept, ap (λ x. str_mem x allowed) name), offered),
                      λ p found h. elim (Bool-cases (str_eq id selected)) [
                        | inl here ↦ ground (arith, here, test)
                        | inr other ↦ ground (arith, hosted p (ground (arith, found, other)) h)
                      ],
                    )
              ]
        ]
      ]

  resolved_active :
      (project : ProjectConfig) (selected : ResolvedLlmProvider)
      → resolve_active_llm_provider cfg project ≡ inr selected
      → (selected_id cfg project ≢ [])
        × ((project.providers.llm_allowed ≡ [])
            ⊎ (any
                  (λ c. str_eq (trim_space c) (selected_id cfg project))
                  project.providers.llm_allowed
                ≡ true))
        × ((p : LlmProviderConfig) × (provider_with (selected_id cfg project) cfg.llms.providers
              ≡ some p)
            × (selected ≡ resolved_of p))
  unfolding resolve_active_llm_provider
  resolved_active project selected e = (
    ground (arith, e),
    ground (arith, e),
    elim (Option-cases (provider_with (selected_id cfg project) cfg.llms.providers)) [
      | inl missing ↦ absurd (ground (arith, e, missing))
      | inr (p, found) ↦ (p, found, ground (arith, e, found))
    ],
  )

  -- The selected provider passes the allowlist.
  selected_kept :
      (project : ProjectConfig) (selected : ResolvedLlmProvider)
      → resolve_active_llm_provider cfg project ≡ inr selected
      → skips (make_allowlist project.providers.llm_allowed) (selected_id cfg project) ≡ false
  unfolding make_allowlist
  selected_kept project selected e =
      let (named, allowed, _) = resolved_active project selected e in
      elim allowed [
        | inl open_to_all ↦ ground (arith, named, ap make_allowlist open_to_all)
        | inr listed ↦ ground (
          arith,
          named,
          mem_allowlist project.providers.llm_allowed (selected_id cfg project) listed named,
        )
      ]

  -- With a registry of providers: every provider that the runtime hosts is in the project's
  -- allowlist, if there is one, and the default provider is hosted, if its identifier in the
  -- registry has no white space around it.
  pub resolve_host-IsHosting :
      (project : ProjectConfig) (host : RuntimeProviderHostConfig)
      → resolve_host ring json s cfg project ≡ inr host
      → All (IsOffered (make_allowlist project.providers.llm_allowed)) host.providers
        × (trim_space host.default ≡ host.default
            → any (λ a. str_eq (trim_space a.id) host.default) host.providers ≡ true)
  unfolding resolve_host
  resolve_host-IsHosting project host e =
      elim (Sum-cases (resolve_active_llm_provider cfg project)) [
        | inl (err, failed) ↦ absurd (ground (arith, e, current, failed))
        | inr (selected, found) ↦
            let allowed = make_allowlist project.providers.llm_allowed in
            let (_, _, (p, first, made)) = resolved_active project selected found in
            elim (Sum-cases
              (adapters_from ring json s cfg allowed selected.id cfg.llms.providers)) [
                | inl (err, failed) ↦ absurd (ground (arith, e, current, found, failed))
                | inr ([], none_left) ↦ absurd (ground (arith, e, current, found, none_left))
                | inr (a ∷ more, adapters) ↦
                    let (offered, hosted) =
                      adapters_from-IsHosting allowed selected.id cfg.llms.providers (a ∷ more)
                        adapters in
                    let default_is : selected.id ≡ host.default =
                      ground (arith, e, current, found, adapters) in
                    let providers_are : a ∷ more ≡ host.providers =
                      ground (arith, e, current, found, adapters) in
                    (
                      subst (All (IsOffered allowed)) providers_are offered,
                      λ trimmed.
                          let name : selected.id ≡ selected_id cfg project =
                            default_is
                            ∙ (sym trimmed
                                ∙ (ap trim_space (sym default_is)
                                    ∙ (ap (λ (r : ResolvedLlmProvider). trim_space r.id) made
                                        ∙ provider_with-id (selected_id cfg project)
                                            cfg.llms.providers p first))) in
                          subst (λ d. any (λ x. str_eq (trim_space x.id) d) host.providers ≡ true)
                            default_is
                            (subst
                              (λ hosts.
                                any (λ x. str_eq (trim_space x.id) selected.id) hosts ≡ true)
                              providers_are
                              (hosted p (ap (λ i. provider_with i cfg.llms.providers) name ∙ first)
                                (ap (skips allowed) name ∙ selected_kept project selected found))),
                    )
              ]
      ]
