-- ===== src/Config/Load/Default.antt =====
-- internal/config/config.go: the default configuration, whose registry has a provider for each
-- bundled preset.
use rillan.Base.{true, false, none, some, List, [], ◌∷◌, ◌++◌, Str, lit, pos}
use rillan.Config.Constants.{schema_version_v2, provider_openai, transport_http, auth_api_key}
use rillan.Config.Presets.{bundled_llm_provider_preset}
use rillan.Config.Types.{Config, LlmProviderConfig, LlmProviderPreset}

abbrev pub local_url : Str
local_url = lit "http://127.0.0.1:11434"

-- `LLMProviderPreset.ProviderConfig`
unfoldable pub provider_config : LlmProviderPreset → Str → LlmProviderConfig
provider_config preset id = record {
  id = id;
  preset = preset.id;
  backend = preset.family;
  transport = transport_http;
  endpoint = preset.endpoint;
  command = [];
  auth_strategy = preset.auth_strategy;
  default_model = preset.default_model;
  model_pins = preset.model_pins;
  capabilities = preset.capabilities;
  credential_ref = lit "keyring://rillan/llm/" ++ id;
}

-- The presets of the default registry, under their own identifiers.
unfoldable pub preset_providers : List Str → List LlmProviderConfig
unfolding provider_config
preset_providers [] = []
preset_providers (id ∷ ids) = elim (bundled_llm_provider_preset id) [
  | none ↦ preset_providers ids
  | some preset ↦ provider_config preset id ∷ preset_providers ids
]

unfoldable pub default_config : Config
unfolding preset_providers
default_config = record {
  schema_version = schema_version_v2;
  server = record {
    host = lit "127.0.0.1";
    port = pos 8420;
    log_level = lit "info";
    allow_non_loopback_bind = false;
    auth = record {
      enabled = false;
      auth_strategy = auth_api_key;
      session_ref = lit "keyring://rillan/auth/daemon";
    };
  };
  provider = record {
    type = provider_openai;
    openai = record { base_url = lit "https://api.openai.com/v1"; api_key = [] };
    anthropic = record {
      enabled = false;
      base_url = lit "https://api.anthropic.com";
      api_key = [];
    };
    local_base_url = local_url;
  };
  index = record {
    root = [];
    includes = [];
    excludes = lit ".git" ∷ lit "node_modules" ∷ lit ".direnv" ∷ lit ".idea" ∷ [];
    chunk_size_lines = pos 120;
  };
  knowledge_graph = record {
    enabled = false;
    path = [];
    auto_update = lit "none";
    traversal_depth = pos 1;
    include_inferred = true;
    max_nodes = pos 2000;
  };
  retrieval = record { enabled = false; top_k = pos 4; max_context_chars = pos 6000 };
  runtime = record { vector_store_mode = lit "embedded"; local_model_base_url = local_url };
  local_model = record {
    enabled = false;
    base_url = local_url;
    embed_model = lit "nomic-embed-text";
    query_rewrite = record { enabled = false; model = lit "qwen3:0.6b" };
  };
  agent = record {
    enabled = false;
    approved_repo_roots = [];
    mcp = record {
      enabled = false;
      read_only = true;
      max_open_files = pos 8;
      max_diagnostics = pos 20;
    };
  };
  auth = record { rillan = record { endpoint = []; auth_strategy = []; session_ref = [] } };
  llms = record {
    default = lit "openai";
    providers =
        preset_providers (
          lit "openai"
          ∷ lit "anthropic"
          ∷ lit "xai"
          ∷ lit "deepseek"
          ∷ lit "kimi"
          ∷ lit "zai"
          ∷ []);
  };
  mcps = record { default = []; servers = [] };
}
