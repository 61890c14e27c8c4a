-- ===== src/Api.antt =====
-- The authentication of the public API: apps/web/lib/rate-limit.ts, api-keys-core.ts, api-hmac.ts,
-- api-auth.ts and team-core.ts.
pub mod Redis
pub mod RateLimit
pub mod Window
pub mod Keys
pub mod Hmac
pub mod Auth
pub mod Accounts
pub mod SecondLogin
pub mod Access
pub mod Revoked
pub mod Lookup
mod Tests
