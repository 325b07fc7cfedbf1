-- ===== src/Egsi/Teacher/Cache.antt =====
-- src/egsi/teacher/cache.py
pub mod Keys
pub mod Run
pub mod Entry
pub mod Outcomes
pub mod Bounded
pub mod Write
pub mod Directory
pub mod Store
pub mod Written
pub mod Releases
pub mod Released
pub mod Found
pub mod Answers
