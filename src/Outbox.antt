-- ===== src/Outbox.antt =====
-- The outbox relay: packages/domain/outbox/src/relay.service.ts.
pub mod Relay
mod Queue
mod Settling
mod Refinement
mod Tests
