-- ===== src/Lifecycle.antt =====
-- The life of a scan: apps/web/lib/scans-core.ts, packages/scan-core/src/finish-scan.ts,
-- finding-status.ts, scan-diff.ts and progress.ts, and apps/worker/src/queues/dispatcher.ts.
pub mod Store
pub mod Create
pub mod Finish
pub mod Dispatch
pub mod Sound
pub mod Steps
pub mod Canceled
pub mod Torn
pub mod Credit
pub mod Outcome
mod Tests
