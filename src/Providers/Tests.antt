-- ===== src/Providers/Tests.antt =====
-- A host of one command and one compatible endpoint.
use rillan.Base.{
  ◌≡◌, refl, inr, inl, [], ◌∷◌, Str, lit, false, lookup, str_eq, trim_space, normalize_string, All,
  List,
}
use rillan.Base.Map.{put}
use rillan.Config.{
  RuntimeProviderAdapterConfig, RuntimeProviderHostConfig, transport_stdio, provider_openai,
}
use rillan.Providers.{
  Provider, Host, HostError, new_adapter, host_all, new_host, provider, default_provider,
}
use rillan.Providers.Laws.{IsServed, new_host-serves}

hosting : Unit {0}
unfolding new_adapter host_all new_host provider default_provider lit str_eq trim_space
    normalize_string lookup put
hosting = tt

abbrev adapter_at : Str → Str → Str → RuntimeProviderAdapterConfig
adapter_at id transport type = record {
  id = id;
  preset = [];
  type = type;
  transport = transport;
  command = lit "run" ∷ [];
  openai = record { base_url = lit "u"; api_key = [] };
  anthropic = record { enabled = false; base_url = []; api_key = [] };
  local_base_url = [];
}

abbrev config_of : List RuntimeProviderAdapterConfig → RuntimeProviderHostConfig
config_of adapters = record { default = lit " a"; providers = adapters }

abbrev two : RuntimeProviderHostConfig
two =
    config_of
      (adapter_at (lit "a ") transport_stdio [] ∷ adapter_at (lit "b") [] provider_openai ∷ [])

built :
    (h : Host) × (new_host two ≡ inr h)
    × (provider h (lit "a") ≡ inr (Provider.stdio (lit "run" ∷ [])))
unfolding hosting
built = (_, refl, refl)

twice :
    new_host
      (config_of (adapter_at (lit "a") transport_stdio [] ∷ adapter_at (lit " a") [] [] ∷ []))
    ≡ inl HostError.duplicate_id
unfolding hosting
twice = refl

host_serves :
    ((p : Provider) × (default_provider built.0 ≡ inr p) × (provider built.0 two.default ≡ inr p))
    × All (IsServed built.0) two.providers
host_serves = new_host-serves two built.0 built.1
