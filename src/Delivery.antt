-- ===== src/Delivery.antt =====
-- src/infra/store.js and src/platform/channels.js: what goes out to channels, what comes in, and
-- what runs on a schedule.
pub mod Outbox
pub mod Sends
mod Samples
