-- ===== src/Config/Validate/Project.antt =====
-- internal/config/validate.go: the configuration of a project and the one of the system.
use rillan.Base.{ℕ, suc, if◌then◌else◌, Option, none, some, List, [], ◌∷◌, Str, lit}
use rillan.Config.{
  ProjectConfig, SystemConfig, ProjectSource, open_source, internal, proprietary, trade_secret,
  prefer_auto, prefer_local, prefer_cloud, prefer_local_only,
}
use rillan.Config.Validate.Errors.{Checks, ValidationError, first_error, before, is_blank, is_other}

-- The error for the first blank text of a list, from index `i` on.
unfoldable pub blank_item : Str → ℕ → List Str → Option ValidationError
blank_item name i [] = none
blank_item name i (s ∷ ss) =
    let rest = blank_item name (suc i) ss in
    if is_blank s then some (ValidationError.item name i) else rest

abbrev pub route_preferences : List Str
route_preferences = prefer_auto ∷ prefer_local ∷ prefer_cloud ∷ prefer_local_only ∷ []

unfoldable pub validate_route_preference : Str → Str → Option ValidationError
validate_route_preference name value =
    if is_other value route_preferences then some (ValidationError.field name) else none

unfoldable pub validate_sources : ℕ → List ProjectSource → Option ValidationError
validate_sources i [] = none
validate_sources i (source ∷ sources) =
    let rest = validate_sources (suc i) sources in
    if is_blank source.path
    then some (ValidationError.item (lit "project.sources.path") i)
    else if is_blank source.type
    then some (ValidationError.item (lit "project.sources.type") i)
    else rest

unfoldable pub validate_task_types : List (Str × Str) → Option ValidationError
unfolding validate_route_preference
validate_task_types [] = none
validate_task_types ((key, value) ∷ task_types) =
    let rest = validate_task_types task_types in
    if is_blank key
    then some (ValidationError.field (lit "project.routing.task_types"))
    else before (validate_route_preference (lit "project.routing.task_types") value) rest

-- The tests of the project's own fields.
abbrev pub project_checks : ProjectConfig → Checks
project_checks cfg =
    (is_blank cfg.name, ValidationError.field (lit "project.name"))
    ∷ (
      is_other cfg.classification (open_source ∷ internal ∷ proprietary ∷ trade_secret ∷ []),
      ValidationError.field (lit "project.classification"),
    )
    ∷ []

unfoldable pub validate_project : ProjectConfig → Option ValidationError
unfolding validate_sources validate_task_types blank_item first_error
validate_project cfg = before (first_error (project_checks cfg)) (
    before (validate_route_preference (lit "project.routing.default") cfg.routing.default) (
      before (validate_sources 0 cfg.sources) (
        before (validate_task_types cfg.routing.task_types) (
          before (blank_item (lit "project.instructions") 0 cfg.instructions)
            (blank_item (lit "project.modules.enabled") 0 cfg.modules_enabled)))))

abbrev pub keyring_aes_gcm : Str
keyring_aes_gcm = lit "keyring_aes_gcm"

unfoldable pub validate_system : SystemConfig → Option ValidationError
unfolding first_error
validate_system cfg = first_error (
    (is_blank cfg.version, ValidationError.field (lit "system.version"))
    ∷ (
      is_other cfg.encryption.method (keyring_aes_gcm ∷ []),
      ValidationError.field (lit "system.encryption.method"),
    )
    ∷ (
      is_blank cfg.encryption.keyring_service,
      ValidationError.field (lit "system.encryption.keyring_service"),
    )
    ∷ (
      is_blank cfg.encryption.keyring_account,
      ValidationError.field (lit "system.encryption.keyring_account"),
    )
    ∷ (is_blank cfg.encrypted_payload, ValidationError.field (lit "system.encrypted_payload"))
    ∷ [])

-- `DefaultProjectConfig`
abbrev pub default_project_config : ProjectConfig
default_project_config = record {
  name = [];
  classification = open_source;
  sources = [];
  routing = record { default = prefer_auto; task_types = [] };
  providers = record { llm_default = []; llm_allowed = []; mcp_enabled = [] };
  modules_enabled = [];
  skills_enabled = [];
  system_prompt = [];
  instructions = [];
}
