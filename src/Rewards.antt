-- ===== src/Rewards.antt =====
-- The computation of rewards (packages/domain/rewards/src/reward.service.ts).
pub mod Types
pub mod Decimal
pub mod Compute
pub mod Decimals
pub mod Percent
pub mod Order
pub mod Tiers
pub mod Earned
pub mod Outcome
pub mod Tests
