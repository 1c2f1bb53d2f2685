-- ===== src/Workflow.antt =====
-- The conservation case workflow (simulator/src/inforsight_simulator/workflow).
pub mod Models
pub mod Machine
pub mod Lifecycle
pub mod Authority
pub mod Capacity
pub mod Balance
pub mod Service
pub mod Review
pub mod Dispatch
pub mod Closing
pub mod Restart
pub mod Atomicity
pub mod Undone
pub mod Delivery
pub mod Handoff
pub mod Permission
pub mod Execution
pub mod Restored
mod Tests
