-- ===== src/Egsi/Candidates.antt =====
-- src/egsi/generation/candidates.py
pub mod Profile
pub mod Steps
pub mod Actions
pub mod Compile
pub mod Choices
pub mod Frontier
pub mod Canonical
pub mod RoundTrip
