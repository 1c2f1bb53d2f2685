-- ===== src/Timeline.antt =====
-- validation.py and reconstruction.py: the event history of a policy, checked and replayed.
pub mod Events
pub mod Preparation
pub mod Checks
pub mod Replay
pub mod Statuses
pub mod Followed
pub mod Lifetimes
mod Tests
