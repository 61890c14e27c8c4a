-- ===== src/Webhook.antt =====
-- Outbound webhooks: packages/notify/src/webhook-deliverer.ts and
-- packages/notify/src/webhook-security.ts.
pub mod Outbox
pub mod Deliver
pub mod Attempts
pub mod Redirect
pub mod Claim
pub mod Guard
mod Tests
