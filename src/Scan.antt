-- ===== src/Scan.antt =====
-- A scan: packages/shared/src/findings.ts, scoring.ts, diff.ts, check-catalog.ts, scan-progress-math.ts.
pub mod Finding
pub mod Rounding
pub mod Score
pub mod Sha256
pub mod Diff
pub mod Counts
pub mod Rescan
pub mod CarryOver
pub mod Catalog
pub mod Progress
pub mod Advance
mod Tests
