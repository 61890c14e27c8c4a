-- ===== src/Aggregate.antt =====
-- From the results of the checks to the end of a scan: packages/scan-core/src/checks.ts, crux.ts,
-- build-findings.ts and notifications.ts, and the aggregator of apps/worker/src/queues/aggregate.ts.
pub mod Checks
pub mod Dedupe
pub mod Bulk
pub mod Build
pub mod Crux
pub mod Process
pub mod Alerts
pub mod Report
pub mod Vitals
mod Tests
