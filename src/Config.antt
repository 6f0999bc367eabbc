-- ===== src/Config.antt =====
-- internal/config: the configuration records, the bundled presets and the resolution of the
-- providers.
mod Types
mod Constants
mod Presets
pub mod Load
pub mod Resolve
pub mod Samples
pub mod Validate
unfoldable pub use Types.*
pub use Constants.*
unfoldable pub use Presets.*
