-- ===== src/Sbs/Schema.antt =====
-- src/sbs/schema.py
pub mod Answers
pub mod Occurs
pub mod Records
pub mod Fields
pub mod Models
pub mod Scripts
