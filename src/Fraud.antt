-- ===== src/Fraud.antt =====
-- Fraud: packages/domain/fraud/src.
pub mod Types
pub mod Config
pub mod Views
pub mod Cases
pub mod Signals
mod Fitting
mod Opening
mod Decisions
mod Kept
mod Run
mod Holding
mod Rejections
mod Tests
