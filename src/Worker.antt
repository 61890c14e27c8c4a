-- ===== src/Worker.antt =====
-- The workers' shared helpers: apps/worker/src/concurrency.ts.
pub mod Pool
pub mod Order
pub mod Ends
mod Tests
