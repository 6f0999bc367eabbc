-- ===== src/Index.antt =====
-- internal/index: which files are indexed, and into what chunks.
pub mod Chunk
pub mod Discover
pub mod Pattern
pub mod Vectors
