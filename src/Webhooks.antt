-- ===== src/Webhooks.antt =====
-- Outgoing webhooks: packages/domain/webhooks/src, and the dispatcher of apps/worker/src/webhooks.
pub mod Types
pub mod Config
pub mod Delivery
pub mod Dispatcher
pub mod Claims
pub mod Retry
pub mod Attempts
pub mod Batch
pub mod Rounds
pub mod Bounded
mod Settings
mod Replays
mod Tests
