-- ===== src/Routing.antt =====
-- internal/routing: the catalog of candidates, and the choice among them.
pub mod Types
pub mod Catalog
pub mod Decide
pub mod Admit
pub mod Ranking
pub mod Order
pub mod Trace
pub mod Status
mod Available
mod StatusTests
mod Offers
mod Tests
