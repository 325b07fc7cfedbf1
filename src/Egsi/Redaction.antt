-- ===== src/Egsi/Redaction.antt =====
-- src/egsi/generation/redaction.py: the traversals of untrusted JSON, and the policy seed.
pub mod Traversal
pub mod Collected
pub mod Counts
pub mod Limits
pub mod Extensions
pub mod Exposed
pub mod Placed
pub mod Oracle
pub mod Values
pub mod Hidden
pub mod Secrecy
pub mod Artifacts
