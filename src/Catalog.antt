-- ===== src/Catalog.antt =====
-- The catalog batch controller: internal/application/services/catalog_*.go.
pub mod Projection
pub mod Coverage
pub mod Session
pub mod Split
pub mod Candidates
pub mod Batches
pub mod Final
pub mod Pages
pub mod Samples
mod Tests
