-- ===== src/Crawl.antt =====
-- The discovery of the routes of a site: packages/shared/src/routes.ts, packages/scan-core/src/routes.ts
-- and apps/worker/src/queues/crawl.ts.
pub mod Robots
pub mod Anchors
pub mod Routes
pub mod Distinct
pub mod Paths
pub mod Stored
mod Tests
