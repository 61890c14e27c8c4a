-- ===== src/Uptime.antt =====
-- The uptime monitor: apps/worker/src/uptime/state.ts and apps/worker/src/uptime/poller.ts.
pub mod State
pub mod Poll
pub mod History
pub mod Round
mod Tests
