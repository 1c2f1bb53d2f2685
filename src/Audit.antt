-- ===== src/Audit.antt =====
-- audit/ledger.py and audit/verifier.py: the hash-chained ledger and its verification.
pub mod Entries
pub mod Ledger
pub mod Verifier
pub mod Chain
pub mod Governance
pub mod Built
mod Tests
