-- ===== src/Config/Load/Project.antt =====
-- internal/config/load.go: the configuration of a project as it is read from its file. A list that
-- is nil is empty here.
use rillan.Base.{
  ◌⊎◌, inl, inr, ReadFile, Option, none, some, map, false, [], ◌∷◌, ◌≡◌, Str, Option-cases, arith,
  sym, subst,
}
use rillan.Config.Constants.{open_source, internal, proprietary, trade_secret}
use rillan.Config.Load.{Paths, LoadError, or_text, resolve_project_path}
use rillan.Config.Types.{ProjectConfig, ProjectSource}
use rillan.Config.Validate.Bound.{before-none}
use rillan.Config.Validate.{
  first_error, is_blank, is_other, default_project_config, validate_project, project_checks,
}

unfoldable pub apply_project_derived_defaults : Paths → Str → ProjectConfig → ProjectConfig
unfolding resolve_project_path
apply_project_derived_defaults paths path cfg = record (cfg) {
  classification = or_text cfg.classification default_project_config.classification;
  routing = record (cfg.routing) {
    default = or_text cfg.routing.default default_project_config.routing.default;
  };
  sources =
      map
        (λ (source : ProjectSource). record (source) {
          path = resolve_project_path paths path source.path;
        })
        cfg.sources;
}

validate_project-IsValid :
    (cfg : ProjectConfig)
    → validate_project cfg ≡ none
    → (is_blank cfg.name ≡ false)
      × (is_other cfg.classification (open_source ∷ internal ∷ proprietary ∷ trade_secret ∷ [])
          ≡ false)
unfolding validate_project first_error
validate_project-IsValid cfg e =
    let (first, rest) = before-none (first_error (project_checks cfg)) _ e in ground (arith, first)

module _ (paths : Paths) (decode : Str → ProjectConfig → Option ProjectConfig) where
  unfoldable pub load_project : Str → ReadFile Str → LoadError ⊎ ProjectConfig
  unfolding apply_project_derived_defaults validate_project
  load_project path ReadFile.absent = inl LoadError.not_found
  load_project path ReadFile.unreadable = inl LoadError.read_config
  load_project path (ReadFile.content bytes) = elim (decode bytes default_project_config) [
    | none ↦ inl LoadError.parse_config
    | some decoded ↦
        let cfg = apply_project_derived_defaults paths path decoded in
        elim (validate_project cfg) [ some err ↦ inl (LoadError.invalid err) | none ↦ inr cfg ]
  ]

  -- What is loaded is what is derived of the decoded file, and it passed the validation.
  load_project-IsDerived :
      (path : Str) (file : ReadFile Str) (cfg : ProjectConfig)
      → load_project path file ≡ inr cfg
      → (decoded : ProjectConfig) × (cfg ≡ apply_project_derived_defaults paths path decoded)
        × (validate_project cfg ≡ none)
  unfolding load_project
  load_project-IsDerived path ReadFile.absent cfg e = absurd (cc)
  load_project-IsDerived path ReadFile.unreadable cfg e = absurd (cc)
  load_project-IsDerived path (ReadFile.content bytes) cfg e =
      elim (Option-cases (decode bytes default_project_config)) [
        | inl unparsed ↦ absurd (ground (arith, e, unparsed))
        | inr (decoded, parsed) ↦
            let derived = apply_project_derived_defaults paths path decoded in
            elim (Option-cases (validate_project derived)) [
              | inr (err, failed) ↦ absurd (ground (arith, e, parsed, failed))
              | inl valid ↦
                  let same : derived ≡ cfg = ground (arith, e, parsed, valid) in
                  (decoded, sym same, subst (λ c. validate_project c ≡ none) same valid)
            ]
      ]

  -- A project that is loaded has a name and one of the four classifications.
  load_project-IsValid :
      (path : Str) (file : ReadFile Str) (cfg : ProjectConfig)
      → load_project path file ≡ inr cfg
      → (is_blank cfg.name ≡ false)
        × (is_other cfg.classification (open_source ∷ internal ∷ proprietary ∷ trade_secret ∷ [])
            ≡ false)
  load_project-IsValid path file cfg e =
      let (decoded, same, valid) = load_project-IsDerived path file cfg e in
      validate_project-IsValid cfg valid
