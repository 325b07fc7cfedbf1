-- ===== src/Egsi/Episode.antt =====
-- The T1 episodes of src/egsi/generation/trajectory.py and replay.py.
pub mod Events
pub mod Transitions
pub mod Replay
pub mod Chain
pub mod Rounds
pub mod Grammar
pub mod Selections
pub mod Compile
pub mod Appended
pub mod Candidates
pub mod Round
pub mod Recorded
pub mod Labelled
pub mod Loop
pub mod Validated
pub mod Accepted
pub mod Trusted
pub mod Built
pub mod RoundTrip
