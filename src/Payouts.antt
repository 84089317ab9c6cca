-- ===== src/Payouts.antt =====
-- Payout requests (packages/domain/payouts/src/payout.service.ts), over the ledger and the wallet.
pub mod Types
pub mod Requests
pub mod Calls
pub mod Transitions
pub mod Tests
