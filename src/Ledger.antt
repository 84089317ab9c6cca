-- ===== src/Ledger.antt =====
-- The double-entry ledger (packages/domain/ledger): its tables and methods, and their proofs.
pub mod Types
pub mod Accounts
pub mod Posting
pub mod Balance
pub mod Sums
pub mod Outcome
pub mod Booked
pub mod Retry
pub mod Isolation
pub mod Ensuring
pub mod Provision
pub mod Run
mod Tests
