-- ===== src/Modules/Manifest.antt =====
-- The manifest of a module, as it is read: its adapters and servers are checked and their commands
-- resolved. filepath.IsAbs is the parameter `is_abs`, and Clean of Join is `join`.
use rillan.Base.{
  ◌==◌, ◌&&◌, ◌||◌, not, if◌then◌else◌, Bool, List, [], ◌∷◌, ◌⊎◌, inl, inr, ◌>>=◌, ◌>>◌, fail_if,
  any, is_empty, Str, str_eq, str_mem, trim_space,
}
use rillan.Config.{LlmProviderConfig, McpServerConfig, transport_http, transport_stdio}
use rillan.Modules.{LspServerConfig, LoadedModule}

pub record Manifest : Type 0 where
  pub id : Str
  pub display_name : Str
  pub version : Str
  pub entrypoint : List Str
  pub llm_adapters : List LlmProviderConfig
  pub mcp_servers : List McpServerConfig
  pub lsp_servers : List LspServerConfig

pub data ModuleError : Type 0 where
  unread unparsed twice no_id no_version no_entrypoint : ModuleError
  blank_id declared_twice no_backend no_endpoint no_command bad_transport : ModuleError
  not_found no_root untrusted untrusted_stdio collision : ModuleError

module _ {A : Type 0} (id_of : A → Str) (check : A → ModuleError ⊎ A) where
  -- The loop that the three `normalize` functions share, with the set `seen`.
  unfoldable pub normalize_all : List Str → List A → ModuleError ⊎ List A
  normalize_all seen [] = inr []
  normalize_all seen (x ∷ xs) = do
    fail_if (is_empty (trim_space (id_of x))) ModuleError.blank_id
    fail_if (str_mem (trim_space (id_of x)) seen) ModuleError.declared_twice
    y ← check x
    ys ← normalize_all (trim_space (id_of x) ∷ seen) xs
    inr (y ∷ ys)

module _ (is_abs : Str → Bool) (join : Str → Str → Str) where
  -- Whether the first word of a command is a path that is relative to the module.
  abbrev is_relative : Str → Bool
  is_relative first =
      not (is_empty first) && (not (is_abs first) && any (λ c. c == b'/' || c == 92) first)

  unfoldable pub normalize_command : Str → List Str → List Str
  normalize_command root [] = []
  normalize_command root (first ∷ rest) =
      if is_relative (trim_space first) then join root (trim_space first) ∷ rest else first ∷ rest

  -- The switch on a transport, with the command that it leaves.
  unfoldable pub check_transport : Str → Str → Str → List Str → ModuleError ⊎ List Str
  check_transport root transport endpoint command =
      if str_eq (trim_space transport) transport_http
      then (if is_empty (trim_space endpoint) then inl ModuleError.no_endpoint else inr command)
      else if str_eq (trim_space transport) transport_stdio
      then (if is_empty command
          then inl ModuleError.no_command
          else inr (normalize_command root command))
      else inl ModuleError.bad_transport

  unfoldable pub check_adapter : Str → LlmProviderConfig → ModuleError ⊎ LlmProviderConfig
  check_adapter root adapter = do
    fail_if (is_empty (trim_space adapter.backend)) ModuleError.no_backend
    command ← check_transport root adapter.transport adapter.endpoint adapter.command
    inr (record (adapter) { command = command })

  unfoldable pub normalize_llm_adapters :
      Str → List LlmProviderConfig → ModuleError ⊎ List LlmProviderConfig
  normalize_llm_adapters root adapters = normalize_all (λ a. a.id) (check_adapter root) [] adapters

  unfoldable pub check_mcp_server : Str → McpServerConfig → ModuleError ⊎ McpServerConfig
  check_mcp_server root server = do
    command ← check_transport root server.transport server.endpoint server.command
    inr (record (server) { command = command })

  unfoldable pub normalize_mcp_servers :
      Str → List McpServerConfig → ModuleError ⊎ List McpServerConfig
  normalize_mcp_servers root servers = normalize_all (λ s. s.id) (check_mcp_server root) [] servers

  unfoldable pub check_lsp_server : Str → LspServerConfig → ModuleError ⊎ LspServerConfig
  check_lsp_server root server = do
    fail_if (is_empty server.command) ModuleError.no_command
    inr (record (server) { command = normalize_command root server.command })

  unfoldable pub normalize_lsp_servers :
      Str → List LspServerConfig → ModuleError ⊎ List LspServerConfig
  normalize_lsp_servers root servers = normalize_all (λ s. s.id) (check_lsp_server root) [] servers

  abbrev pub loaded_of :
      Str
      → Str
      → Manifest
      → Str
      → List LlmProviderConfig
      → List McpServerConfig
      → List LspServerConfig
      → LoadedModule
  loaded_of root path manifest digest adapters mcp_servers lsp_servers = record {
    id = trim_space manifest.id;
    display_name = trim_space manifest.display_name;
    version = trim_space manifest.version;
    root_path = root;
    manifest_sha256 = digest;
    manifest_path = path;
    entrypoint = normalize_command root manifest.entrypoint;
    llm_adapters = adapters;
    mcp_servers = mcp_servers;
    lsp_servers = lsp_servers;
  }

  unfoldable pub load_module_manifest : Str → Str → Manifest → Str → ModuleError ⊎ LoadedModule
  load_module_manifest root path manifest digest = do
    fail_if (is_empty (trim_space manifest.id)) ModuleError.no_id
    fail_if (is_empty (trim_space manifest.version)) ModuleError.no_version
    fail_if (is_empty manifest.entrypoint) ModuleError.no_entrypoint
    adapters ← normalize_llm_adapters root manifest.llm_adapters
    mcp_servers ← normalize_mcp_servers root manifest.mcp_servers
    lsp_servers ← normalize_lsp_servers root manifest.lsp_servers
    inr (loaded_of root path manifest digest adapters mcp_servers lsp_servers)
