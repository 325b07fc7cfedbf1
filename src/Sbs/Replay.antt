-- ===== src/Sbs/Replay.antt =====
-- src/sbs/replay.py
pub mod Update
pub mod Case
pub mod Settled
pub mod Loop
pub mod Audit
pub mod Outcome
pub mod Failures
pub mod Closing
pub mod Faithful
