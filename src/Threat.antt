-- ===== src/Threat.antt =====
-- The analysis of a honeypot's hits: apps/web/lib/threat-rules.ts.
pub mod Rules
pub mod Best
mod Tests
