-- ===== src/Config/Validate/Settings.antt =====
-- internal/config/validate.go: the tests of `ValidateForMode` on what a request is prepared with.
use rillan.Base.{pos, ltb_ℤ, not, ◌&&◌, [], ◌∷◌, any, lit}
use rillan.Config.{Config}
use rillan.Config.Validate.Errors.{ValidationError, Checks, is_blank, is_other}

-- Those that concern the index, the knowledge graph and the retrieval.
abbrev pub index_checks : Config → Checks
index_checks cfg =
    (ltb_ℤ cfg.index.chunk_size_lines (pos 1), ValidationError.field (lit "index.chunk_size_lines"))
    ∷ (
      is_other cfg.knowledge_graph.auto_update (lit "none" ∷ lit "poll" ∷ lit "watch" ∷ []),
      ValidationError.field (lit "knowledge_graph.auto_update"),
    )
    ∷ (
      ltb_ℤ cfg.knowledge_graph.traversal_depth (pos 0),
      ValidationError.field (lit "knowledge_graph.traversal_depth"),
    )
    ∷ (
      ltb_ℤ cfg.knowledge_graph.max_nodes (pos 1),
      ValidationError.field (lit "knowledge_graph.max_nodes"),
    )
    ∷ (ltb_ℤ cfg.retrieval.top_k (pos 1), ValidationError.field (lit "retrieval.top_k"))
    ∷ (
      ltb_ℤ cfg.retrieval.max_context_chars (pos 1),
      ValidationError.field (lit "retrieval.max_context_chars"),
    )
    ∷ (any is_blank cfg.index.includes, ValidationError.field (lit "index.includes"))
    ∷ (any is_blank cfg.index.excludes, ValidationError.field (lit "index.excludes"))
    ∷ []

-- Those that concern the local model and the agent.
abbrev pub model_checks : Config → Checks
model_checks cfg =
    let local_model = cfg.local_model in
    let rewrite = cfg.local_model.query_rewrite in
    let mcp = cfg.agent.mcp in
    (
      local_model.enabled && is_blank local_model.base_url,
      ValidationError.field (lit "local_model.base_url"),
    )
    ∷ (
      local_model.enabled && is_blank local_model.embed_model,
      ValidationError.field (lit "local_model.embed_model"),
    )
    ∷ (
      rewrite.enabled && not local_model.enabled,
      ValidationError.field (lit "local_model.enabled"),
    )
    ∷ (
      rewrite.enabled && is_blank rewrite.model,
      ValidationError.field (lit "local_model.query_rewrite.model"),
    )
    ∷ (mcp.enabled && not mcp.read_only, ValidationError.field (lit "agent.mcp.read_only"))
    ∷ (
      mcp.enabled && ltb_ℤ mcp.max_open_files (pos 1),
      ValidationError.field (lit "agent.mcp.max_open_files"),
    )
    ∷ (
      mcp.enabled && ltb_ℤ mcp.max_diagnostics (pos 1),
      ValidationError.field (lit "agent.mcp.max_diagnostics"),
    )
    ∷ []
