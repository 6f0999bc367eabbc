-- ===== src/Config/Load/Defaulted.antt =====
-- internal/config/load.go: what the derived defaults leave of a registry, and the default provider
-- of a file that names none.
use rillan.Base.{
  ℤ, pos, negsuc, zero, suc, ltb_ℤ, Option-cases, ◌≡◌, refl, ap, ◌∙◌, sym, subst, inl, inr,
  ReadFile, if◌then◌else◌, Bool, false, Option, none, some, List, [], ◌∷◌, is_empty, Str, lit,
  trim_space, arith,
}
use mathlib.Core.Option
use rillan.Config.Constants.{schema_version_v2}
use rillan.Config.Load.Env.{Environment, apply_env_overrides}
use rillan.Config.Load.{
  LoadError, load_with_mode, or_int, Paths, load_for_edit, apply_derived_defaults,
  derived_providers, first_id, default_config, apply_llm_provider_preset_defaults, with_preset,
}
use rillan.Config.Resolve.{ResolveError, provider_with, resolve_active_llm_provider, selected_id}
use rillan.Config.Types.{Config, LlmProviderConfig}
use rillan.Config.Validate.{
  ValidationError, ValidationMode, validate_for_mode, default_project_config,
}
use rillan.Config.Validate.Bound.{validate_for_mode-IsSafe}

-- A preset fills the fields of a provider in, and its identifier stays.
preset_defaults-id : (p : LlmProviderConfig) → (apply_llm_provider_preset_defaults p).id ≡ p.id
unfolding apply_llm_provider_preset_defaults with_preset
preset_defaults-id p = ground arith

-- So an identifier is found after it where the file has it, with its preset applied.
provider_with-derived :
    (id : Str)
    → (ps : List LlmProviderConfig)
    → provider_with id (derived_providers false ps)
      ≡ Option.map apply_llm_provider_preset_defaults (provider_with id ps)
unfolding provider_with derived_providers
provider_with-derived id [] = refl
provider_with-derived id (p ∷ ps) =
    let rest = provider_with-derived id ps in
    let same = preset_defaults-id p in ground (arith, rest, same)

-- A default provider that is set stays.
derived_default-set :
    (paths : Paths)
    → (path : Str) → (cfg : Config) → cfg.llms.default ≡ default_config.llms.default
    → (apply_derived_defaults paths path false cfg).llms.default ≡ default_config.llms.default
unfolding apply_derived_defaults default_config lit
derived_default-set paths path cfg unset =
    let first = first_id (derived_providers false cfg.llms.providers) in
    let kept = λ (id : Str). (if is_empty id then first else id) ≡ default_config.llms.default in
    subst kept (sym unset) refl

-- The default configuration's provider is found only where the list has it.
default_id-selected :
    (cfg : Config)
    → cfg.llms.default ≡ default_config.llms.default
    → selected_id cfg default_project_config ≡ default_config.llms.default
unfolding default_config trim_space lit
default_id-selected cfg unset = ap trim_space unset

resolve_active-unlisted :
    (cfg : Config)
    → cfg.llms.default ≡ default_config.llms.default
    → provider_with default_config.llms.default cfg.llms.providers ≡ none
    → resolve_active_llm_provider cfg default_project_config ≡ inl ResolveError.active_not_found
unfolding resolve_active_llm_provider default_config lit
resolve_active-unlisted cfg unset unlisted =
    let selected = default_id-selected cfg unset in
    let named : is_empty (selected_id cfg default_project_config) ≡ false = (rw selected refl) in
    let missing : provider_with (selected_id cfg default_project_config) cfg.llms.providers ≡ none =
      rw selected unlisted in
    ground (arith, named, missing)

-- So what is derived of a registry that does not list it has no active provider.
derived-unresolved :
    (paths : Paths)
    → (path : Str) → (cfg : Config) → cfg.llms.default ≡ default_config.llms.default
    → provider_with default_config.llms.default cfg.llms.providers ≡ none
    → resolve_active_llm_provider
        (apply_derived_defaults paths path false cfg)
        default_project_config
      ≡ inl ResolveError.active_not_found
unfolding apply_derived_defaults
derived-unresolved paths path cfg unset unlisted =
    resolve_active-unlisted (apply_derived_defaults paths path false cfg)
      (derived_default-set paths path cfg unset)
      (provider_with-derived default_config.llms.default cfg.llms.providers
        ∙ ap (Option.map apply_llm_provider_preset_defaults) unlisted)

-- What the tests of a registry read stays.
or_int-IsVersioned :
    (v : ℤ)
    → ltb_ℤ v schema_version_v2 ≡ false
    → ltb_ℤ (or_int v schema_version_v2) schema_version_v2 ≡ false
or_int-IsVersioned (pos zero) e = refl
or_int-IsVersioned (pos (suc n)) e = e
or_int-IsVersioned (negsuc n) e = e

is_empty-derived :
    (ps : List LlmProviderConfig) → is_empty (derived_providers false ps) ≡ is_empty ps
unfolding derived_providers
is_empty-derived [] = refl
is_empty-derived (p ∷ ps) = refl

-- So the daemon does not accept it.
derived-refused :
    (paths : Paths)
    → (parse_ip : Str → Option Bool) → (path : Str) → (cfg : Config)
    → ltb_ℤ cfg.schema_version schema_version_v2 ≡ false
    → is_empty cfg.llms.providers ≡ false
    → cfg.llms.default ≡ default_config.llms.default
    → provider_with default_config.llms.default cfg.llms.providers ≡ none
    → (err : ValidationError) × (validate_for_mode parse_ip
          (apply_derived_defaults paths path false cfg)
          ValidationMode.serve
        ≡ some err)
unfolding apply_derived_defaults
derived-refused paths parse_ip path cfg v2 given unset unlisted =
    let loaded = apply_derived_defaults paths path false cfg in
    elim (Option-cases (validate_for_mode parse_ip loaded ValidationMode.serve)) [
      | inr refused ↦ refused
      | inl accepted ↦
          let (safe, active) =
            validate_for_mode-IsSafe parse_ip loaded ValidationMode.serve accepted in
          let (provider, served) =
            active refl (or_int-IsVersioned cfg.schema_version v2)
              (is_empty-derived cfg.llms.providers ∙ given) in
          let unresolved = derived-unresolved paths path cfg unset unlisted in
          let resolved = served.0 in absurd (cc)
    ]

-- Of a file on four conditions: decoded over the default configuration it has the default provider
-- of that configuration, as it has if it sets none and the decoder leaves the fields alone that a
-- file does not set; its schema version is two or more; it lists at least one provider; and it does not list that default provider. Then it is read
-- for an edit without an error, and no active provider is found in what is read: the first
-- provider of the list does not stand in for the default. The daemon, whatever the environment,
-- refuses the file as invalid.
pub load-unresolved :
    (paths : Paths)
    → (decode : Str → Config → Option (Config × Bool)) → (env : Environment)
    → (parse_ip : Str → Option Bool) → (path : Str) → (bytes : Str) → (decoded : Config)
    → decode bytes default_config ≡ some (decoded, false)
    → ltb_ℤ decoded.schema_version schema_version_v2 ≡ false
    → is_empty decoded.llms.providers ≡ false
    → decoded.llms.default ≡ default_config.llms.default
    → provider_with default_config.llms.default decoded.llms.providers ≡ none
    → ((loaded : Config) × (load_for_edit paths decode path (ReadFile.content bytes) ≡ inr loaded)
        × (resolve_active_llm_provider loaded default_project_config
            ≡ inl ResolveError.active_not_found))
      × ((err : ValidationError) × (load_with_mode paths decode env parse_ip ValidationMode.serve
              path
              (ReadFile.content bytes)
            ≡ inl (LoadError.invalid err)))
unfolding load_for_edit load_with_mode apply_env_overrides
load-unresolved paths decode env parse_ip path bytes decoded read v2 given unset unlisted =
    let (err, refused) =
      derived-refused paths parse_ip path (apply_env_overrides env decoded) v2 given unset
        unlisted in
    (
      (
        apply_derived_defaults paths path false decoded,
        (rw (read, load_for_edit)),
        derived-unresolved paths path decoded unset unlisted,
      ),
      (err, (rw (read, refused, load_with_mode))),
    )
