-- ===== src/Egsi/Teacher.antt =====
-- The teachers' contract and their cache: src/egsi/teacher/base.py and cache.py.
pub mod Responses
pub mod Retries
pub mod Cache
