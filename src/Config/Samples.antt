-- ===== src/Config/Samples.antt =====
-- A configuration and a project that the tests start from.
use rillan.Base.{pos, true, false, [], lit}
use rillan.Config.{Config, ProjectConfig, prefer_auto}

abbrev pub plain_config : Config
plain_config = record {
  schema_version = pos 2;
  server = record {
    host = lit "127.0.0.1";
    port = pos 8420;
    log_level = lit "info";
    allow_non_loopback_bind = false;
    auth = record { enabled = false; auth_strategy = []; session_ref = [] };
  };
  provider = record {
    type = [];
    openai = record { base_url = []; api_key = [] };
    anthropic = record { enabled = false; base_url = []; api_key = [] };
    local_base_url = [];
  };
  index = record { root = []; includes = []; excludes = []; chunk_size_lines = pos 120 };
  knowledge_graph = record {
    enabled = false;
    path = [];
    auto_update = [];
    traversal_depth = pos 1;
    include_inferred = true;
    max_nodes = pos 2000;
  };
  retrieval = record { enabled = false; top_k = pos 4; max_context_chars = pos 6000 };
  runtime = record { vector_store_mode = []; local_model_base_url = [] };
  local_model = record {
    enabled = false;
    base_url = [];
    embed_model = [];
    query_rewrite = record { enabled = false; model = [] };
  };
  agent = record {
    enabled = false;
    approved_repo_roots = [];
    mcp = record {
      enabled = false;
      read_only = true;
      max_open_files = pos 8;
      max_diagnostics = pos 20;
    };
  };
  auth = record { rillan = record { endpoint = []; auth_strategy = []; session_ref = [] } };
  llms = record { default = []; providers = [] };
  mcps = record { default = []; servers = [] };
}

abbrev pub plain_project : ProjectConfig
plain_project = record {
  name = lit "p";
  classification = [];
  sources = [];
  routing = record { default = prefer_auto; task_types = [] };
  providers = record { llm_default = []; llm_allowed = []; mcp_enabled = [] };
  modules_enabled = [];
  skills_enabled = [];
  system_prompt = [];
  instructions = [];
}
