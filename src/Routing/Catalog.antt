-- ===== src/Routing/Catalog.antt =====
-- internal/routing/catalog.go: the candidates that the configuration and the project offer.
use rillan.Base.{
  ltb_ℤ, if◌then◌else◌, ◌||◌, Ordering, not, none, some, List, [], ◌∷◌, map, reverse, keep,
  is_empty, Str, lit, str_eq, str_compare, str_mem, trim_space, normalize_string,
}
use rillan.Base.Sort.{sort_func}
use rillan.Config.{
  Config, ProjectConfig, LlmProviderConfig, schema_version_v2, transport_http, transport_stdio,
  provider_ollama, bundled_llm_provider_preset,
}
use rillan.Routing.Types.{Location, local, remote, Candidate, Catalog}

unfoldable pub location_for_provider : Str → Str → Location
location_for_provider family transport =
    if str_eq (normalize_string transport) transport_stdio
    then local
    else if str_eq (normalize_string family) provider_ollama
    then local
    else remote

unfoldable pub provider_family : LlmProviderConfig → Str
provider_family provider =
    let family = normalize_string provider.backend in
    if not (is_empty family) then family else elim (bundled_llm_provider_preset provider.preset) [
      | some preset ↦ normalize_string preset.family
      | none ↦ []
    ]

unfoldable pub provider_capabilities : LlmProviderConfig → List Str
provider_capabilities provider =
    if not (is_empty provider.capabilities)
    then provider.capabilities
    else elim (bundled_llm_provider_preset provider.preset) [
      | some preset ↦ preset.capabilities
      | none ↦ lit "chat" ∷ []
    ]

-- What is left of `providerModelPins` once no pin is configured or bundled.
unfoldable pub default_model_pins : LlmProviderConfig → List Str
default_model_pins provider =
    let model = trim_space provider.default_model in if is_empty model then [] else model ∷ []

unfoldable pub provider_model_pins : LlmProviderConfig → List Str
unfolding default_model_pins
provider_model_pins provider =
    if not (is_empty provider.model_pins)
    then provider.model_pins
    else elim (bundled_llm_provider_preset provider.preset) [
      | some preset ↦
          if not (is_empty preset.model_pins)
          then preset.model_pins
          else default_model_pins provider
      | none ↦ default_model_pins provider
    ]

unfoldable pub legacy_candidate : Config → Candidate
unfolding location_for_provider
legacy_candidate cfg =
    let backend = normalize_string cfg.provider.type in
    record {
      id = lit "default";
      backend = backend;
      preset = [];
      transport = transport_http;
      endpoint = [];
      default_model = [];
      model_pins = [];
      capabilities = lit "chat" ∷ [];
      location = location_for_provider backend transport_http;
    }

-- The round of the loop of `buildCandidates` for one provider.
unfoldable pub provider_candidate : LlmProviderConfig → Candidate
unfolding location_for_provider provider_family provider_capabilities provider_model_pins
provider_candidate provider = record {
  id = trim_space provider.id;
  backend = provider_family provider;
  preset = trim_space provider.preset;
  transport = trim_space provider.transport;
  endpoint = trim_space provider.endpoint;
  default_model = trim_space provider.default_model;
  model_pins = provider_model_pins provider;
  capabilities = provider_capabilities provider;
  location = location_for_provider (provider_family provider) provider.transport;
}

unfoldable pub build_candidates : Config → List Candidate
unfolding legacy_candidate provider_candidate
build_candidates cfg =
    if ltb_ℤ cfg.schema_version schema_version_v2 || is_empty cfg.llms.providers
    then legacy_candidate cfg ∷ []
    else map provider_candidate cfg.llms.providers

-- The set of the trimmed texts that are not empty.
unfoldable pub make_allowlist : List Str → List Str
make_allowlist values = keep (λ id. not (is_empty id)) (map trim_space values)

abbrev compare_id : Candidate → Candidate → Ordering
compare_id left right = str_compare left.id right.id

-- A later candidate of an identifier replaces an earlier one in the map, so that the association
-- list has the candidates in reverse order.
unfoldable pub build_catalog : Config → ProjectConfig → Catalog
unfolding build_candidates make_allowlist sort_func
build_catalog cfg project =
    let allowed = make_allowlist project.providers.llm_allowed in
    let limited = not (is_empty allowed) in
    let candidates = build_candidates cfg in
    let offered = if limited then keep (λ c. str_mem c.id allowed) candidates else candidates in
    let sorted = sort_func compare_id offered in
    record { candidates = sorted; by_id = map (λ c. (c.id, c)) (reverse sorted); allowed = limited }
