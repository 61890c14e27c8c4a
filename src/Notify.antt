-- ===== src/Notify.antt =====
-- The notification hub: packages/notify/src/index.ts.
pub mod Hub
pub mod Once
pub mod Again
pub mod Balance
mod Tests
