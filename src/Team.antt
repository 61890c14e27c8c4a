-- ===== src/Team.antt =====
-- Teams and invitations: apps/web/lib/invites-core.ts.
pub mod Store
pub mod Invite
pub mod Member
pub mod Seats
pub mod Owners
pub mod Race
mod Tests
