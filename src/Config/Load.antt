-- ===== src/Config/Load.antt =====
-- internal/config/load.go: a configuration as it is read from its file, with what is derived where
-- a field is empty. The YAML decoder is the parameter `decode`, which decodes into a configuration;
-- its flag is whether the registry's providers are nil after it, as they are for a null. The
-- functions on paths are the record `Paths`.
mod Default
pub mod Env
pub mod Project
pub mod Places
pub mod System
pub mod Defaulted
mod Tests
use rillan.Base.{
  zero, suc, ◌⊎◌, inl, inr, ◌&&◌, not, ReadFile, if◌then◌else◌, ℤ, pos, Bool, true, false, Option,
  none, some, List, [], ◌∷◌, ◌++◌, map, is_empty, Str, lit, normalize_string, trim_space,
}
unfoldable pub use Default.*
use rillan.Config.Constants.{schema_version_v2, provider_openai, transport_http, auth_api_key}
use rillan.Config.Presets.{bundled_llm_provider_preset}
use rillan.Config.Load.Env.{Environment, apply_env_overrides}
use rillan.Config.Validate.{ValidationError, ValidationMode, validate_for_mode}
use rillan.Config.Types.{Config, LlmProviderConfig, LlmProviderPreset}

-- filepath.IsAbs, Clean, Dir, Join, and Abs, which may fail.
pub record Paths : Type 0 where
  pub is_abs : Str → Bool
  pub clean : Str → Str
  pub dir : Str → Str
  pub join : Str → Str → Str
  pub abs : Str → Option Str

-- `resolveProjectPath`; `resolveIndexRoot` has the same body.
unfoldable pub resolve_project_path : Paths → Str → Str → Str
resolve_project_path paths path value =
    let trimmed = trim_space value in
    let base = if is_empty path then lit "." else paths.dir path in
    if is_empty trimmed
    then []
    else if paths.is_abs trimmed
    then paths.clean trimmed
    else elim (paths.abs (paths.join base trimmed)) [
      | none ↦ paths.clean (paths.join base trimmed)
      | some resolved ↦ resolved
    ]

abbrev or_text : Str → Str → Str
or_text value derived = if is_empty value then derived else value

abbrev or_unblank : Str → Str → Str
or_unblank value derived = if is_empty (trim_space value) then derived else value

abbrev or_list : List Str → List Str → List Str
or_list values derived = if is_empty values then derived else values

abbrev or_int : ℤ → ℤ → ℤ
or_int (ℤ.pos zero) derived = derived
or_int (ℤ.pos (suc n)) derived = ℤ.pos (suc n)
or_int (ℤ.negsuc n) derived = ℤ.negsuc n

-- What `applyLLMProviderPresetDefaults` does once the preset is found.
unfoldable pub with_preset : LlmProviderPreset → LlmProviderConfig → LlmProviderConfig
with_preset preset p =
    let default_model = or_unblank p.default_model preset.default_model in
    let model_pins = or_list p.model_pins preset.model_pins in
    record (p) {
      backend = or_unblank p.backend preset.family;
      transport = or_unblank p.transport transport_http;
      endpoint = or_unblank p.endpoint preset.endpoint;
      auth_strategy = or_unblank p.auth_strategy preset.auth_strategy;
      default_model = default_model;
      model_pins =
          if is_empty model_pins && not (is_empty (trim_space default_model))
          then trim_space default_model ∷ []
          else model_pins;
      capabilities = or_list p.capabilities preset.capabilities;
      credential_ref =
          if is_empty (trim_space p.credential_ref) && not (is_empty (trim_space p.id))
          then lit "keyring://rillan/llm/" ++ trim_space p.id
          else p.credential_ref;
    }

unfoldable pub apply_llm_provider_preset_defaults : LlmProviderConfig → LlmProviderConfig
unfolding with_preset
apply_llm_provider_preset_defaults p =
    if is_empty (normalize_string p.preset)
    then p
    else elim (bundled_llm_provider_preset (normalize_string p.preset)) [
      | none ↦ p
      | some preset ↦ with_preset preset p
    ]

-- The identifier of the first provider.
abbrev pub first_id : List LlmProviderConfig → Str
first_id [] = []
first_id (p ∷ ps) = p.id

unfoldable pub derived_providers : Bool → List LlmProviderConfig → List LlmProviderConfig
unfolding default_config apply_llm_provider_preset_defaults
derived_providers is_nil providers =
    map apply_llm_provider_preset_defaults
      (if is_nil then default_config.llms.providers else providers)

unfoldable pub apply_derived_defaults : Paths → Str → Bool → Config → Config
unfolding default_config derived_providers resolve_project_path
apply_derived_defaults paths path is_nil cfg =
    let local_base_url = or_text cfg.provider.local_base_url local_url in
    let providers = derived_providers is_nil cfg.llms.providers in
    record (cfg) {
      schema_version = or_int cfg.schema_version schema_version_v2;
      provider = record {
        type = or_text cfg.provider.type provider_openai;
        openai = record (cfg.provider.openai) {
          base_url = or_text cfg.provider.openai.base_url (lit "https://api.openai.com/v1");
        };
        anthropic = record (cfg.provider.anthropic) {
          base_url = or_text cfg.provider.anthropic.base_url (lit "https://api.anthropic.com");
        };
        local_base_url = local_base_url;
      };
      runtime = record {
        local_model_base_url = or_text cfg.runtime.local_model_base_url local_base_url;
        vector_store_mode = or_text cfg.runtime.vector_store_mode (lit "embedded");
      };
      index = record (cfg.index) {
        excludes = or_list cfg.index.excludes default_config.index.excludes;
        chunk_size_lines = or_int cfg.index.chunk_size_lines (ℤ.pos 120);
        root = resolve_project_path paths path cfg.index.root;
      };
      knowledge_graph = record (cfg.knowledge_graph) {
        auto_update = or_unblank cfg.knowledge_graph.auto_update (lit "none");
        traversal_depth = or_int cfg.knowledge_graph.traversal_depth (ℤ.pos 1);
        max_nodes = or_int cfg.knowledge_graph.max_nodes (ℤ.pos 2000);
        path = resolve_project_path paths path cfg.knowledge_graph.path;
      };
      retrieval = record (cfg.retrieval) {
        top_k = or_int cfg.retrieval.top_k (ℤ.pos 4);
        max_context_chars = or_int cfg.retrieval.max_context_chars (ℤ.pos 6000);
      };
      server = record (cfg.server) {
        host = or_text cfg.server.host (lit "127.0.0.1");
        port = or_int cfg.server.port (ℤ.pos 8420);
        log_level = or_text cfg.server.log_level (lit "info");
      };
      local_model = record (cfg.local_model) {
        base_url = or_text cfg.local_model.base_url local_url;
        embed_model = or_text cfg.local_model.embed_model (lit "nomic-embed-text");
        query_rewrite = record (cfg.local_model.query_rewrite) {
          model = or_text cfg.local_model.query_rewrite.model (lit "qwen3:0.6b");
        };
      };
      agent = record (cfg.agent) {
        approved_repo_roots = map (resolve_project_path paths path) cfg.agent.approved_repo_roots;
        mcp = record (cfg.agent.mcp) {
          max_open_files = or_int cfg.agent.mcp.max_open_files (ℤ.pos 8);
          max_diagnostics = or_int cfg.agent.mcp.max_diagnostics (ℤ.pos 20);
          read_only = if cfg.agent.mcp.enabled then cfg.agent.mcp.read_only else true;
        };
      };
      llms = record {
        default = or_text cfg.llms.default (first_id providers);
        providers = providers;
      };
    }

pub data LoadError : Type 0 where
  not_found read_config parse_config : LoadError
  invalid : ValidationError → LoadError

module _ (paths : Paths) (decode : Str → Config → Option (Config × Bool)) where
  unfoldable pub load_for_edit : Str → ReadFile Str → LoadError ⊎ Config
  unfolding apply_derived_defaults default_config
  load_for_edit path ReadFile.absent = inr (apply_derived_defaults paths path false default_config)
  load_for_edit path ReadFile.unreadable = inl LoadError.read_config
  load_for_edit path (ReadFile.content bytes) = elim (decode bytes default_config) [
    | none ↦ inl LoadError.parse_config
    | some decoded ↦ inr (apply_derived_defaults paths path decoded.1 decoded.0)
  ]

  -- What `LoadWithMode` validates.
  abbrev pub overridden : Environment → Str → Config × Bool → Config
  overridden env path decoded =
      apply_derived_defaults paths path decoded.1 (apply_env_overrides env decoded.0)

  unfoldable pub load_with_mode :
      Environment → (Str → Option Bool) → ValidationMode → Str → ReadFile Str → LoadError ⊎ Config
  unfolding apply_derived_defaults default_config apply_env_overrides validate_for_mode
  load_with_mode env parse_ip mode path ReadFile.absent = inl LoadError.not_found
  load_with_mode env parse_ip mode path ReadFile.unreadable = inl LoadError.read_config
  load_with_mode env parse_ip mode path (ReadFile.content bytes) =
      elim (decode bytes default_config) [
        | none ↦ inl LoadError.parse_config
        | some decoded ↦ elim (validate_for_mode parse_ip (overridden env path decoded) mode) [
          | some err ↦ inl (LoadError.invalid err)
          | none ↦ inr (overridden env path decoded)
        ]
      ]
