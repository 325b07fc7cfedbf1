-- ===== src/Sbs/Isolation.antt =====
-- src/sbs/isolation.py
pub mod Paths
pub mod Store
pub mod Reads
pub mod Evidence
