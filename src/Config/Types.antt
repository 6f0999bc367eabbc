-- ===== src/Config/Types.antt =====
-- internal/config/config.go: the records. A Go map is an association list, and a field that no
-- modelled function reads is left out of none of them.
use rillan.Base.{ℤ, Str, Bool, List}

pub record ControlPlaneAuthConfig : Type 0 where
  pub endpoint : Str
  pub auth_strategy : Str
  pub session_ref : Str

pub record AuthConfig : Type 0 where
  pub rillan : ControlPlaneAuthConfig

pub record LlmProviderConfig : Type 0 where
  pub id : Str
  pub preset : Str
  pub backend : Str
  pub transport : Str
  pub endpoint : Str
  pub command : List Str
  pub auth_strategy : Str
  pub default_model : Str
  pub model_pins : List Str
  pub capabilities : List Str
  pub credential_ref : Str

pub record LlmRegistryConfig : Type 0 where
  pub default : Str
  pub providers : List LlmProviderConfig

pub record McpServerConfig : Type 0 where
  pub id : Str
  pub endpoint : Str
  pub transport : Str
  pub command : List Str
  pub auth_strategy : Str
  pub read_only : Bool
  pub credential_ref : Str

pub record McpRegistryConfig : Type 0 where
  pub default : Str
  pub servers : List McpServerConfig

pub record ResolvedLlmProvider : Type 0 where
  pub id : Str
  pub preset : Str
  pub backend : Str
  pub transport : Str
  pub endpoint : Str
  pub command : List Str
  pub auth_strategy : Str
  pub default_model : Str
  pub model_pins : List Str
  pub capabilities : List Str
  pub credential_ref : Str

pub record LlmProviderPreset : Type 0 where
  pub id : Str
  pub family : Str
  pub endpoint : Str
  pub auth_strategy : Str
  pub default_model : Str
  pub model_pins : List Str
  pub capabilities : List Str

pub record TrustedModulePolicy : Type 0 where
  pub repo_root : Str
  pub module_id : Str
  pub manifest_sha256 : Str
  pub allow_stdio : Bool

pub record SystemIdentityRules : Type 0 where
  pub people : List Str
  pub employers : List Str
  pub pii_patterns : List Str
  pub credential_patterns : List Str

pub record SystemPolicyRules : Type 0 where
  pub mask_pii_for_remote : Bool
  pub strip_employer_references : Bool
  pub force_local_for_trade_secret : Bool
  pub block_remote_on_pci_artifacts : Bool

pub record SystemPolicy : Type 0 where
  pub identity : SystemIdentityRules
  pub rules : SystemPolicyRules
  pub trusted_modules : List TrustedModulePolicy

pub record SystemEncryptionConfig : Type 0 where
  pub method : Str
  pub keyring_service : Str
  pub keyring_account : Str

pub record SystemConfig : Type 0 where
  pub version : Str
  pub encryption : SystemEncryptionConfig
  pub encrypted_payload : Str
  pub policy : SystemPolicy

pub record ProjectSource : Type 0 where
  pub path : Str
  pub type : Str

pub record ProjectRoutingConfig : Type 0 where
  pub default : Str
  pub task_types : List (Str × Str)

pub record ProjectProviderSelectionConfig : Type 0 where
  pub llm_default : Str
  pub llm_allowed : List Str
  pub mcp_enabled : List Str

-- The enabled modules and the enabled skills are records of one list each in the source.
pub record ProjectConfig : Type 0 where
  pub name : Str
  pub classification : Str
  pub sources : List ProjectSource
  pub routing : ProjectRoutingConfig
  pub providers : ProjectProviderSelectionConfig
  pub modules_enabled : List Str
  pub skills_enabled : List Str
  pub system_prompt : Str
  pub instructions : List Str

pub record QueryRewriteConfig : Type 0 where
  pub enabled : Bool
  pub model : Str

pub record LocalModelConfig : Type 0 where
  pub enabled : Bool
  pub base_url : Str
  pub embed_model : Str
  pub query_rewrite : QueryRewriteConfig

pub record ServerAuthConfig : Type 0 where
  pub enabled : Bool
  pub auth_strategy : Str
  pub session_ref : Str

pub record ServerConfig : Type 0 where
  pub host : Str
  pub port : ℤ
  pub log_level : Str
  pub allow_non_loopback_bind : Bool
  pub auth : ServerAuthConfig

pub record OpenAiConfig : Type 0 where
  pub base_url : Str
  pub api_key : Str

pub record AnthropicConfig : Type 0 where
  pub enabled : Bool
  pub base_url : Str
  pub api_key : Str

pub record ProviderConfig : Type 0 where
  pub type : Str
  pub openai : OpenAiConfig
  pub anthropic : AnthropicConfig
  pub local_base_url : Str

pub record RuntimeProviderAdapterConfig : Type 0 where
  pub id : Str
  pub preset : Str
  pub type : Str
  pub transport : Str
  pub command : List Str
  pub openai : OpenAiConfig
  pub anthropic : AnthropicConfig
  pub local_base_url : Str

pub record RuntimeProviderHostConfig : Type 0 where
  pub default : Str
  pub providers : List RuntimeProviderAdapterConfig

pub record IndexConfig : Type 0 where
  pub root : Str
  pub includes : List Str
  pub excludes : List Str
  pub chunk_size_lines : ℤ

pub record KnowledgeGraphConfig : Type 0 where
  pub enabled : Bool
  pub path : Str
  pub auto_update : Str
  pub traversal_depth : ℤ
  pub include_inferred : Bool
  pub max_nodes : ℤ

pub record RuntimeConfig : Type 0 where
  pub vector_store_mode : Str
  pub local_model_base_url : Str

pub record RetrievalConfig : Type 0 where
  pub enabled : Bool
  pub top_k : ℤ
  pub max_context_chars : ℤ

pub record McpConfig : Type 0 where
  pub enabled : Bool
  pub read_only : Bool
  pub max_open_files : ℤ
  pub max_diagnostics : ℤ

pub record AgentRuntimeConfig : Type 0 where
  pub enabled : Bool
  pub approved_repo_roots : List Str
  pub mcp : McpConfig

pub record Config : Type 0 where
  pub schema_version : ℤ
  pub server : ServerConfig
  pub provider : ProviderConfig
  pub index : IndexConfig
  pub knowledge_graph : KnowledgeGraphConfig
  pub retrieval : RetrievalConfig
  pub runtime : RuntimeConfig
  pub local_model : LocalModelConfig
  pub agent : AgentRuntimeConfig
  pub auth : AuthConfig
  pub llms : LlmRegistryConfig
  pub mcps : McpRegistryConfig
