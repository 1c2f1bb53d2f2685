-- ===== src/Safety.antt =====
-- safety_evidence.py: the safety facts of a policy, replayed from its events up to a cutoff.
pub mod Evidence
pub mod Updates
pub mod Supported
mod Tests
