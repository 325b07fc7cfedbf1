-- ===== src/Egsi.antt =====
-- src/egsi
pub mod RepositoryPaths
pub mod Redaction
pub mod Contracts
pub mod Candidates
pub mod Episode
pub mod Teacher
mod Tests
