-- ===== src/Referrals.antt =====
-- Referrals: packages/domain/referrals/src/referral.service.ts.
pub mod Types
pub mod Codes
pub mod Edges
mod Consistent
mod Attach
mod Applied
mod Outcome
mod Drawn
mod Run
pub mod Chain
mod Levels
mod Tests
