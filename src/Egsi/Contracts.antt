-- ===== src/Egsi/Contracts.antt =====
-- src/egsi/contracts: case manifests and enrichments.
pub mod Case
pub mod Enrichment
pub mod Committed
pub mod Catalog
