-- ===== src/Sbs.antt =====
-- src/sbs
pub mod Errors
pub mod Schema
pub mod Isolation
pub mod Scorer
pub mod Views
pub mod Replay
pub mod Registry
pub mod StaticCheck
pub mod Reports
mod Tests
