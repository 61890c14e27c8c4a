-- ===== src/Domain.antt =====
-- The watch over a domain: packages/shared/src/domain.ts, packages/scan-core/src/domain.ts and
-- apps/scheduler/src/domain-watch.ts.
pub mod Measure
pub mod Watch
pub mod Changes
pub mod Repeat
mod Tests
