-- ===== src/Settlements.antt =====
-- Settlement cycles (packages/domain/settlements/src/settlement.service.ts), over the ledger and the
-- scheduled postings.
pub mod Cycles
pub mod Liability
pub mod Single
pub mod Tests
