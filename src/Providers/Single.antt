-- ===== src/Providers/Single.antt =====
-- The host of one adapter.
use rillan.Base.{
  ◌≡◌, ap, ◌∙◌, true, false, List, [], ◌∷◌, inl, inr, is_empty, arith, Str, lookup, trim_space,
}
use rillan.Base.Map.{put, lookup-put}
use rillan.Base.Trim.{trim_space-trim_space}
use rillan.Config.{RuntimeProviderAdapterConfig, RuntimeProviderHostConfig}
use rillan.Providers.{Provider, Host, HostError, new_adapter, host_all, new_host, default_provider}
use rillan.Providers.Laws.{provider_found}

-- A configuration of one adapter, which is the default.
abbrev pub one : RuntimeProviderAdapterConfig → RuntimeProviderHostConfig
one adapter = record { default = adapter.id; providers = adapter ∷ [] }

module _ (adapter : RuntimeProviderAdapterConfig) where
  abbrev hosting_one : Provider → List (Str × Provider)
  hosting_one p = put (trim_space adapter.id) p []

  host_all-one :
      (p : Provider)
      → is_empty (trim_space adapter.id) ≡ false
      → new_adapter adapter ≡ inr p
      → host_all (adapter ∷ []) [] ≡ inr (hosting_one p)
  unfolding host_all lookup
  host_all-one p named made = rw (named, made, host_all)

  -- It serves the client of the adapter.
  pub new_host-one :
      (p : Provider)
      → is_empty (trim_space adapter.id) ≡ false
      → new_adapter adapter ≡ inr p
      → (h : Host) × (new_host (one adapter) ≡ inr h) × (default_provider h ≡ inr p)
  unfolding new_host default_provider
  new_host-one p named made =
      let found = lookup-put (trim_space adapter.id) p [] in
      let h : Host = record {
        default_provider_id = trim_space adapter.id;
        providers = hosting_one p;
      } in
      (
        h,
        ground (arith, named, host_all-one p named made, found),
        provider_found h (trim_space adapter.id) p
            (ap (λ i. lookup i (hosting_one p)) (trim_space-trim_space adapter.id) ∙ found),
      )

  pub new_host-unnamed :
      is_empty (trim_space adapter.id) ≡ true → new_host (one adapter) ≡ inl HostError.empty_default
  unfolding new_host
  new_host-unnamed e = rw (e, new_host)

  pub new_host-unmade :
      (err : HostError)
      → is_empty (trim_space adapter.id) ≡ false
      → new_adapter adapter ≡ inl err
      → new_host (one adapter) ≡ inl err
  unfolding new_host host_all lookup
  new_host-unmade err named failed = rw (named, failed, new_host, host_all)
