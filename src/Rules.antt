-- ===== src/Rules.antt =====
-- Action eligibility (simulator/src/inforsight_simulator/rules): the records, the six invariants,
-- the engine, and what its results mean.
pub mod Models
pub mod Context
pub mod Invariants
pub mod Engine
pub mod Checks
pub mod Loop
pub mod Judged
pub mod Eligibility
pub mod Results
pub mod Mapping
mod Tests
