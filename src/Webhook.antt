-- ===== src/Webhook.antt =====
-- packages/webhook/src: the observer that posts events of the batch to the addresses of a host.
pub mod Signing
pub mod Header
pub mod Options
pub mod Observer
pub mod Delivering
pub mod Endings
mod Tests
