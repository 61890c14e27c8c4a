-- ===== src/Team/Invite.antt =====
-- apps/web/lib/invites-core.ts: creating, accepting and deleting an invitation. An error is thrown
-- inside a transaction that is rolled back, so the store that comes with an error is the old one.
use scan_pal.Common.{
  ℕ, suc, ◌+◌, Option, none, some, List, [], ◌∷◌, ◌++◌, Bool, ◌&&◌, not, String, str_eq, ◌==◌,
  if◌then◌else◌, ltb, leb, exists, find, select, update,
}
use scan_pal.Team.Store.{
  UserRole, MemberStatus, Membership, InvitationRow, Store, Locale, not_found, expired,
  already_member, pending_exists, email_mismatch, member_limit, Result, ok, error,
  invitation_ttl_ms, max_members_for_team, is_accepted, has_key, is_membership, is_unset,
  count_members, count_open,
}

pub record InviteInput : Type 0 where
  pub team_id : ℕ
  pub email : String
  pub role : UserRole
  pub invited_by : ℕ

-- `now()` of the database and `Date.now()` of the process.
pub record Now : Type 0 where
  pub sql_now : ℕ
  pub js_now : ℕ

-- An accepted member of the team with this address.
abbrev has_address : Locale → ℕ → String → Store → Membership → Bool
has_address loc team email db m =
    m.team_id == team && str_eq (loc.lower (db.email_of m.user_id)) email && is_accepted m.status

-- An invitation of the team to this address that was not accepted.
abbrev is_pending_for : Locale → ℕ → String → InvitationRow → Bool
is_pending_for loc team email i =
    i.team_id == team && str_eq (loc.lower i.email) email && is_unset i.accepted_at

abbrev pub new_invitation : Now → String → String → InviteInput → Store → InvitationRow
new_invitation now email token input db = record {
  id = db.next_invitation;
  team_id = input.team_id;
  email = email;
  role = input.role;
  token = token;
  expires_at = now.js_now + invitation_ttl_ms;
  invited_by = some input.invited_by;
  accepted_at = none;
}

-- `seats >= maxMembers` throws.
unfoldable pub seat_available : ℕ → ℕ → Store → Bool
seat_available seats team db = not (leb (max_members_for_team team db) seats)

unfoldable pub create_invitation :
    Locale → Now → String → InviteInput → Store → Store × Result InvitationRow
unfolding seat_available
create_invitation loc now token input db =
    let email = loc.lower (loc.trim input.email) in
    if exists (has_address loc input.team_id email db) db.memberships
    then (db, error already_member)
    else (if exists (is_pending_for loc input.team_id email) db.invitations
        then (db, error pending_exists)
        else (if seat_available
              (count_members input.team_id db + count_open input.team_id now.sql_now db)
              input.team_id db
            then (
              record db {
                invitations = db.invitations ++ new_invitation now email token input db ∷ [];
                next_invitation = suc db.next_invitation;
              },
              ok (new_invitation now email token input db),
            )
            else (db, error member_limit)))

unfoldable pub get_invitation : String → Store → Option InvitationRow
get_invitation token db = find (λ (i : InvitationRow). str_eq i.token token) db.invitations

pub data AcceptStatus : Type 0 where
  accepted already_accepted : AcceptStatus

pub record AcceptInput : Type 0 where
  pub user_id : ℕ
  pub email : String

abbrev pub membership_of : AcceptInput → InvitationRow → Membership
membership_of input i = record {
  team_id = i.team_id;
  user_id = input.user_id;
  role = i.role;
  status = MemberStatus.accepted;
  invited_by = i.invited_by;
}

-- `insert into memberships ... on conflict (team_id, user_id) do nothing`.
unfoldable pub insert_membership : AcceptInput → InvitationRow → List Membership → List Membership
insert_membership input i ms =
    if exists (has_key i.team_id input.user_id) ms then ms else ms ++ membership_of input i ∷ []

-- `update invitations set accepted_at = now() where id = $1`.
abbrev pub mark_accepted : ℕ → ℕ → List InvitationRow → List InvitationRow
mark_accepted now id =
    update (λ (i : InvitationRow). i.id == id)
      (λ (i : InvitationRow). record i { accepted_at = some now })

-- The transaction, with the team's row locked.
unfoldable pub join_team :
    Now → AcceptInput → InvitationRow → Store → Store × Result (AcceptStatus × ℕ)
unfolding insert_membership seat_available
join_team now input i db =
    if not (exists (is_membership i.team_id input.user_id) db.memberships)
      && not (seat_available (count_members i.team_id db) i.team_id db)
    then (db, error member_limit)
    else (
      record db {
        memberships = insert_membership input i db.memberships;
        invitations = mark_accepted now.sql_now i.id db.invitations;
      },
      ok (accepted, i.team_id),
    )

-- The checks before the transaction.
abbrev pub check_invitation :
    Locale → Now → AcceptInput → InvitationRow → Store → Store × Result (AcceptStatus × ℕ)
check_invitation loc now input i db =
    if ltb i.expires_at now.js_now
    then (db, error expired)
    else (if not (is_unset i.accepted_at)
        then (db, ok (already_accepted, i.team_id))
        else (if str_eq (loc.lower i.email) (loc.lower (loc.trim input.email))
            then join_team now input i db
            else (db, error email_mismatch)))

abbrev pub accept_found :
    Locale → Now → AcceptInput → Option InvitationRow → Store → Store × Result (AcceptStatus × ℕ)
accept_found loc now input none db = (db, error not_found)
accept_found loc now input (some i) db = check_invitation loc now input i db

unfoldable pub accept_invitation :
    Locale → Now → String → AcceptInput → Store → Store × Result (AcceptStatus × ℕ)
unfolding join_team get_invitation
accept_invitation loc now token input db = accept_found loc now input (get_invitation token db) db

-- `delete from invitations where id = $1 and team_id = $2`, and whether a row was deleted.
unfoldable pub delete_invitation : (team id : ℕ) → Store → Store × Bool
delete_invitation team id db = (
  record db {
    invitations =
        select (λ (i : InvitationRow). not (i.id == id && i.team_id == team)) db.invitations;
  },
  exists (λ (i : InvitationRow). i.id == id && i.team_id == team) db.invitations,
)
