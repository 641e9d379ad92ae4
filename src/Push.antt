-- ===== src/Push.antt =====
-- route_push.go: the push pipeline.
pub mod Values
pub mod Message
pub mod Flag
pub mod Harmony
pub mod Deliver
pub mod Request
pub mod Parse
pub mod Apns
pub mod Batch
pub mod Outcomes
pub mod Refusals
pub mod Secrets
pub mod Tombstone
mod Tests
