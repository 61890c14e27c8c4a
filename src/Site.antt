-- ===== src/Site.antt =====
-- The proof that a team owns a site's domain: packages/scan-core/src/ownership.ts and
-- packages/shared/src/ownership.ts.
pub mod Ownership
pub mod Verified
mod Tests
