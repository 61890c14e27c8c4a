-- ===== src/Schedule.antt =====
-- Recurring scans: packages/shared/src/schedule.ts and apps/scheduler/src/core.ts.
pub mod Next
pub mod Due
pub mod Laws
mod Tests
