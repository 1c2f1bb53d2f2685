-- ===== src/Allocation.antt =====
-- optimization/: the choice of one action for each policy under a budget and a staff capacity.
pub mod Models
pub mod Exact
pub mod Selections
pub mod Table
pub mod Sound
pub mod Totals
pub mod Optimal
pub mod Answers
pub mod Heuristic
pub mod Gathered
pub mod Committed
pub mod Spent
pub mod Served
pub mod Portfolio
pub mod Allocated
pub mod Monotone
pub mod Returns
pub mod Completes
pub mod Reported
mod Tests
