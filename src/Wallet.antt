-- ===== src/Wallet.antt =====
-- The credit wallet (packages/domain/wallet): grants, FIFO allocation, redemptions and payout
-- reservations, and their proofs.
pub mod Types
pub mod Allocation
pub mod Grants
pub mod Redemption
pub mod Payout
pub mod Fifo
pub mod Coverage
pub mod Spending
pub mod Loops
pub mod Backing
pub mod Conservation
pub mod Holding
pub mod Releasing
pub mod Sending
pub mod Run
pub mod Solvency
pub mod Tests
