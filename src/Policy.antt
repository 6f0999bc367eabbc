-- ===== src/Policy.antt =====
-- internal/policy: the secret scanner, the evaluation of a request, and the runtime policy.
mod Types
pub mod Scanner
pub mod Evaluator
unfoldable pub use Types.*
