-- ===== src/Agent.antt =====
-- The agent of internal/agent: the actions it proposes, and the context that it works from.
pub mod Approval
pub mod Budget
