-- ===== src/Routing/Available.antt =====
-- When a candidate is available.
use mathlib.Core.Sum.{inr-injective}
use rillan.Base.{
  ◌≡◌, ◌≢◌, ◌↔◌, ◌⊎◌, inl, inr, refl, ap, sym, ◌∙◌, subst, true, false, ◌&&◌, Option, none, [],
  is_empty, arith, Str, trim_space, Option-cases, Sum-cases, Bool-cases,
}
use rillan.Config.{Config, ResolvedLlmProvider, RuntimeProviderAdapterConfig}
use rillan.Config.Resolve.{resolve_llm_provider_by_id, resolve_adapter}
use rillan.Secrets.{Keyring, Codec}
use rillan.Providers.{Provider, Host, HostError, new_adapter, new_host, default_provider}
use rillan.Providers.Single.{one, new_host-one, new_host-unnamed, new_host-unmade}
use rillan.Routing.Types.{Candidate}
use rillan.Routing.Status.{
  CandidateStatus, requires_credential, host_config_of, runtime_status, build_candidate_status,
  finalize_candidate_status,
}

-- An adapter keeps the identifier of its provider.
resolve_adapter-id :
    {S : Type 0} (ring : Keyring S) (json : Codec) (s : S) (cfg : Config)
    (selected : ResolvedLlmProvider) (adapter : RuntimeProviderAdapterConfig)
    → resolve_adapter ring json s cfg selected ≡ inr adapter
    → adapter.id ≡ selected.id
unfolding resolve_adapter
resolve_adapter-id ring json s cfg selected adapter e = ground (arith, e)

-- What a status says of a candidate, and why.
abbrev Decided : CandidateStatus → Candidate → Type 0 → Type 0
Decided st c Served =
    (st.candidate ≡ c)
    × (((st.available ≡ true) × Served × (st.unavailable_reasons ≡ []))
        ⊎ ((st.available ≡ false) × (¬ Served) × (st.unavailable_reasons ≢ [])))

-- The adapter makes a client, which is ready.
abbrev pub IsReady : (ready : Provider → Option Str) → RuntimeProviderAdapterConfig → Type 0
IsReady ready adapter =
    (is_empty (trim_space adapter.id) ≡ false)
    × ((p : Provider) × (new_adapter adapter ≡ inr p) × (ready p ≡ none))

module _ {S : Type 0} (ring : Keyring S) (json : Codec) (s : S)
    (ready : Provider → Option Str) where
  runtime_status-refused :
      (c : Candidate) (selected : ResolvedLlmProvider) (adapter : RuntimeProviderAdapterConfig)
      (err : HostError)
      → new_host (host_config_of selected adapter) ≡ inl err
      → (¬ IsReady ready adapter)
      → Decided (runtime_status ring json s ready c selected adapter) c (IsReady ready adapter)
  unfolding runtime_status finalize_candidate_status
  runtime_status-refused c selected adapter err e unready =
      rw (e, runtime_status) (refl, inr (refl, unready, λ bad. cc))

  runtime_status-probed :
      (c : Candidate) (selected : ResolvedLlmProvider) (adapter : RuntimeProviderAdapterConfig)
      (p : Provider) (h : Host)
      → is_empty (trim_space adapter.id) ≡ false
      → new_adapter adapter ≡ inr p
      → new_host (host_config_of selected adapter) ≡ inr h
      → default_provider h ≡ inr p
      → Decided (runtime_status ring json s ready c selected adapter) c (IsReady ready adapter)
  unfolding runtime_status finalize_candidate_status
  runtime_status-probed c selected adapter p h named made hosted serves =
      elim (Option-cases (ready p)) [
        | inl calm ↦
            rw (hosted, serves, calm, runtime_status)
              (refl, inl (refl, (named, (p, made, calm)), refl))
        | inr (err, failing) ↦
            rw (hosted, serves, failing, runtime_status)
              (refl, inr (refl, λ r. ground (arith, r, made, failing), λ bad. cc))
      ]

  runtime_status-Decided :
      (c : Candidate) (selected : ResolvedLlmProvider) (adapter : RuntimeProviderAdapterConfig)
      → adapter.id ≡ selected.id
      → Decided (runtime_status ring json s ready c selected adapter) c (IsReady ready adapter)
  runtime_status-Decided c selected adapter same =
      let as_one : one adapter ≡ host_config_of selected adapter = rw same refl in
      elim (Bool-cases (is_empty (trim_space adapter.id))) [
        | inl unnamed ↦
            runtime_status-refused c selected adapter _
              (ap new_host (sym as_one) ∙ new_host-unnamed adapter unnamed)
              (λ r. ground (arith, r, unnamed))
        | inr named ↦ elim (Sum-cases (new_adapter adapter)) [
          | inl (err, failed) ↦
              runtime_status-refused c selected adapter _
                (ap new_host (sym as_one) ∙ new_host-unmade adapter err named failed)
                (λ r. ground (arith, r, failed))
          | inr (p, made) ↦
              let (h, hosted, serves) = new_host-one adapter p named made in
              runtime_status-probed c selected adapter p h named made
                (ap new_host (sym as_one) ∙ hosted) serves
        ]
      ]

  -- What it takes to serve through a candidate.
  pub record CanServe (cfg : Config) (c : Candidate) : Type 0 where
    pub selected : ResolvedLlmProvider
    pub adapter : RuntimeProviderAdapterConfig
    pub resolved : resolve_llm_provider_by_id cfg c.id ≡ inr selected
    pub credential :
        requires_credential selected && is_empty (trim_space selected.credential_ref) ≡ false
    pub adapted : resolve_adapter ring json s cfg selected ≡ inr adapter
    pub serves : IsReady ready adapter

  can_adapted :
      (cfg : Config) (c : Candidate) (selected : ResolvedLlmProvider)
      → resolve_llm_provider_by_id cfg c.id ≡ inr selected
      → (can : CanServe cfg c)
      → (requires_credential selected && is_empty (trim_space selected.credential_ref) ≡ false)
        × (resolve_adapter ring json s cfg selected ≡ inr can.adapter)
  can_adapted cfg c selected resolved can =
      subst
        (λ (x : ResolvedLlmProvider).
          (requires_credential x && is_empty (trim_space x.credential_ref) ≡ false)
          × (resolve_adapter ring json s cfg x ≡ inr can.adapter))
        (inr-injective _ _ (sym can.resolved ∙ resolved)) (can.credential, can.adapted)

  build_candidate_status-adapted :
      (cfg : Config) (c : Candidate) (selected : ResolvedLlmProvider)
      → resolve_llm_provider_by_id cfg c.id ≡ inr selected
      → requires_credential selected && is_empty (trim_space selected.credential_ref) ≡ false
      → Decided (build_candidate_status ring json s ready cfg c) c (CanServe cfg c)
  unfolding build_candidate_status finalize_candidate_status
  build_candidate_status-adapted cfg c selected resolved bound =
      elim (Sum-cases (resolve_adapter ring json s cfg selected)) [
        | inl (err, failed) ↦
            rw (resolved, bound, failed, build_candidate_status)
              (
                refl,
                inr (
                  refl,
                  λ can. ground (arith, can_adapted cfg c selected resolved can, failed),
                  λ bad. cc,
                ),
              )
        | inr (adapter, adapted) ↦
            let (same, either) =
              runtime_status-Decided c selected adapter
                (resolve_adapter-id ring json s cfg selected adapter adapted) in
            rw (resolved, bound, adapted, build_candidate_status)
              (
                same,
                elim either [
                  | inl (on, r, no_reasons) ↦ inl (
                    on,
                    record {
                      selected = selected;
                      adapter = adapter;
                      resolved = resolved;
                      credential = bound;
                      adapted = adapted;
                      serves = r;
                    },
                    no_reasons,
                  )
                  | inr (off, unready, reasons) ↦ inr (
                    off,
                    λ can. unready (
                        subst (IsReady ready)
                          (inr-injective _ _
                            (sym (can_adapted cfg c selected resolved can).1 ∙ adapted))
                          can.serves),
                    reasons,
                  )
                ],
              )
      ]

  build_candidate_status-Decided :
      (cfg : Config) (c : Candidate)
      → Decided (build_candidate_status ring json s ready cfg c) c (CanServe cfg c)
  unfolding build_candidate_status finalize_candidate_status
  build_candidate_status-Decided cfg c = elim (Sum-cases (resolve_llm_provider_by_id cfg c.id)) [
    | inl (err, failed) ↦
        rw (failed, build_candidate_status)
          (refl, inr (refl, λ can. ground (arith, failed, can.resolved), λ bad. cc))
    | inr (selected, resolved) ↦
        elim (Bool-cases
          (requires_credential selected && is_empty (trim_space selected.credential_ref))) [
            | inl unbound ↦
                rw (resolved, unbound, build_candidate_status)
                  (
                    refl,
                    inr (
                      refl,
                      λ can. ground (arith, can_adapted cfg c selected resolved can, unbound),
                      λ bad. cc,
                    ),
                  )
            | inr bound ↦ build_candidate_status-adapted cfg c selected resolved bound
          ]
  ]

  -- A candidate is available exactly if it is configured under its identifier, has a credential
  -- where its strategy requires one, and has an adapter that is resolved, named, and makes a
  -- client that is ready. Its status gives no reasons exactly if it is available.
  pub build_candidate_status-available_iff :
      (cfg : Config) (c : Candidate)
      → let st = build_candidate_status ring json s ready cfg c in
        ((st.available ≡ true) ↔ CanServe cfg c)
        × ((st.available ≡ true) ↔ (st.unavailable_reasons ≡ []))
        × (st.candidate ≡ c)
  build_candidate_status-available_iff cfg c =
      let (same, either) = build_candidate_status-Decided cfg c in
      elim either [
        | inl (on, can, bare) ↦ ((λ _. can, λ _. on), (λ _. bare, λ _. on), same)
        | inr (off, cannot, reasons) ↦ (
          (λ on. absurd (ground (arith, on, off)), λ can. absurd (cannot can)),
          (λ on. absurd (ground (arith, on, off)), λ bare. absurd (reasons bare)),
          same,
        )
      ]
