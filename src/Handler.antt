-- ===== src/Handler.antt =====
-- internal/httpapi/chat_completions_handler.go: from a chat request to the upstream and back.
pub mod Types
pub mod Proxy
pub mod Plan
pub mod Prompt
pub mod Route
pub mod Serve
mod Tests
mod Remote
