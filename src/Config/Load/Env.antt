-- ===== src/Config/Load/Env.antt =====
-- internal/config/load.go: the environment's variables that override a configuration. os.LookupEnv,
-- strconv.Atoi and ParseBool, which may fail, are the record `Environment`.
use rillan.Base.{
  ℤ, Bool, Option, none, some, List, [], ◌∷◌, map, keep, not, is_empty, Str, lit, split, trim_space,
}
use rillan.Config.Types.{Config}

pub record Environment : Type 0 where
  pub lookup : Str → Option Str
  pub atoi : Str → Option ℤ
  pub parse_bool : Str → Option Bool

module _ (env : Environment) where
  -- The first variable that is set.
  unfoldable pub string_env : List Str → Str → Str
  string_env [] target = target
  string_env (key ∷ keys) target = elim (env.lookup key) [
    | none ↦ string_env keys target
    | some value ↦ value
  ]

  -- A variable that parses.
  abbrev parsed_env : {A : Type 0} → (Str → Option A) → Str → A → A
  parsed_env parse key target = elim (env.lookup key) [
    | none ↦ target
    | some value ↦ elim (parse value) [ none ↦ target | some parsed ↦ parsed ]
  ]

  unfoldable pub int_env : Str → ℤ → ℤ
  int_env key target = parsed_env env.atoi key target

  unfoldable pub bool_env : Str → Bool → Bool
  bool_env key target = parsed_env env.parse_bool key target

  unfoldable pub csv_env : Str → List Str → List Str
  csv_env key target = elim (env.lookup key) [
    | none ↦ target
    | some value ↦ keep (λ part. not (is_empty part)) (map trim_space (split b',' value))
  ]

  unfoldable pub apply_env_overrides : Config → Config
  unfolding string_env int_env bool_env csv_env
  apply_env_overrides cfg = record (cfg) {
    server = record {
      host = string_env (lit "RILLAN_SERVER_HOST" ∷ []) cfg.server.host;
      port = int_env (lit "RILLAN_SERVER_PORT") cfg.server.port;
      log_level = string_env (lit "RILLAN_SERVER_LOG_LEVEL" ∷ []) cfg.server.log_level;
      allow_non_loopback_bind =
          bool_env (lit "RILLAN_SERVER_ALLOW_NON_LOOPBACK_BIND") cfg.server.allow_non_loopback_bind;
      auth = record {
        enabled = bool_env (lit "RILLAN_SERVER_AUTH_ENABLED") cfg.server.auth.enabled;
        auth_strategy =
            string_env (lit "RILLAN_SERVER_AUTH_STRATEGY" ∷ []) cfg.server.auth.auth_strategy;
        session_ref =
            string_env (lit "RILLAN_SERVER_AUTH_SESSION_REF" ∷ []) cfg.server.auth.session_ref;
      };
    };
    provider = record {
      type = string_env (lit "RILLAN_PROVIDER_TYPE" ∷ []) cfg.provider.type;
      openai = record {
        base_url = string_env (lit "RILLAN_OPENAI_BASE_URL" ∷ []) cfg.provider.openai.base_url;
        api_key =
            string_env (lit "RILLAN_OPENAI_API_KEY" ∷ lit "OPENAI_API_KEY" ∷ [])
              cfg.provider.openai.api_key;
      };
      anthropic = record {
        enabled = bool_env (lit "RILLAN_ANTHROPIC_ENABLED") cfg.provider.anthropic.enabled;
        base_url =
            string_env (lit "RILLAN_ANTHROPIC_BASE_URL" ∷ []) cfg.provider.anthropic.base_url;
        api_key =
            string_env (lit "RILLAN_ANTHROPIC_API_KEY" ∷ lit "ANTHROPIC_API_KEY" ∷ [])
              cfg.provider.anthropic.api_key;
      };
      local_base_url =
          string_env (lit "RILLAN_LOCAL_MODEL_BASE_URL" ∷ []) cfg.provider.local_base_url;
    };
    index = record {
      root = string_env (lit "RILLAN_INDEX_ROOT" ∷ []) cfg.index.root;
      includes = csv_env (lit "RILLAN_INDEX_INCLUDES") cfg.index.includes;
      excludes = csv_env (lit "RILLAN_INDEX_EXCLUDES") cfg.index.excludes;
      chunk_size_lines = int_env (lit "RILLAN_INDEX_CHUNK_SIZE_LINES") cfg.index.chunk_size_lines;
    };
    knowledge_graph = record {
      enabled = bool_env (lit "RILLAN_KNOWLEDGE_GRAPH_ENABLED") cfg.knowledge_graph.enabled;
      path = string_env (lit "RILLAN_KNOWLEDGE_GRAPH_PATH" ∷ []) cfg.knowledge_graph.path;
      auto_update =
          string_env (lit "RILLAN_KNOWLEDGE_GRAPH_AUTO_UPDATE" ∷ [])
            cfg.knowledge_graph.auto_update;
      traversal_depth =
          int_env (lit "RILLAN_KNOWLEDGE_GRAPH_TRAVERSAL_DEPTH")
            cfg.knowledge_graph.traversal_depth;
      include_inferred =
          bool_env (lit "RILLAN_KNOWLEDGE_GRAPH_INCLUDE_INFERRED")
            cfg.knowledge_graph.include_inferred;
      max_nodes = int_env (lit "RILLAN_KNOWLEDGE_GRAPH_MAX_NODES") cfg.knowledge_graph.max_nodes;
    };
    retrieval = record {
      enabled = bool_env (lit "RILLAN_RETRIEVAL_ENABLED") cfg.retrieval.enabled;
      top_k = int_env (lit "RILLAN_RETRIEVAL_TOP_K") cfg.retrieval.top_k;
      max_context_chars =
          int_env (lit "RILLAN_RETRIEVAL_MAX_CONTEXT_CHARS") cfg.retrieval.max_context_chars;
    };
    runtime = record {
      vector_store_mode =
          string_env (lit "RILLAN_VECTOR_STORE_MODE" ∷ []) cfg.runtime.vector_store_mode;
      local_model_base_url =
          string_env (lit "RILLAN_LOCAL_MODEL_BASE_URL" ∷ []) cfg.runtime.local_model_base_url;
    };
    local_model = record {
      enabled = bool_env (lit "RILLAN_LOCAL_MODEL_ENABLED") cfg.local_model.enabled;
      base_url = string_env (lit "RILLAN_LOCAL_MODEL_BASE_URL" ∷ []) cfg.local_model.base_url;
      embed_model =
          string_env (lit "RILLAN_LOCAL_MODEL_EMBED_MODEL" ∷ []) cfg.local_model.embed_model;
      query_rewrite = record {
        enabled =
            bool_env (lit "RILLAN_LOCAL_MODEL_QUERY_REWRITE_ENABLED")
              cfg.local_model.query_rewrite.enabled;
        model =
            string_env (lit "RILLAN_LOCAL_MODEL_QUERY_REWRITE_MODEL" ∷ [])
              cfg.local_model.query_rewrite.model;
      };
    };
    agent = record (cfg.agent) {
      enabled = bool_env (lit "RILLAN_AGENT_ENABLED") cfg.agent.enabled;
      mcp = record {
        enabled = bool_env (lit "RILLAN_AGENT_MCP_ENABLED") cfg.agent.mcp.enabled;
        read_only = bool_env (lit "RILLAN_AGENT_MCP_READ_ONLY") cfg.agent.mcp.read_only;
        max_open_files =
            int_env (lit "RILLAN_AGENT_MCP_MAX_OPEN_FILES") cfg.agent.mcp.max_open_files;
        max_diagnostics =
            int_env (lit "RILLAN_AGENT_MCP_MAX_DIAGNOSTICS") cfg.agent.mcp.max_diagnostics;
      };
    };
  }
