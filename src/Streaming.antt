-- ===== src/Streaming.antt =====
-- streaming.py: the ingress of events and the buffer that replays them.
pub mod Ingress
pub mod Deduplicated
pub mod Buffer
pub mod Visible
pub mod Kept
pub mod Arrival
mod Tests
