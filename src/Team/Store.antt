-- ===== src/Team/Store.antt =====
-- The tables that apps/web/lib/invites-core.ts works on. `memberships` and `invitations` are lists
-- of rows; the plan column of `subscriptions` and the addresses of `users` are functions of the id.
-- `lower` and `trim` are those of the language and of SQL, which agree on addresses.
use scan_pal.Common.{
  ℕ, ◌*◌, Option, none, some, List, Bool, true, false, ◌&&◌, String, ◌==◌, ltb, count,
}
use scan_pal.Billing.Plans.{PlanId, free, pro, max, plans}

pub data UserRole : Type 0 where
  owner member : UserRole

pub data MemberStatus : Type 0 where
  pending accepted : MemberStatus

pub record Membership : Type 0 where
  pub team_id : ℕ
  pub user_id : ℕ
  pub role : UserRole
  pub status : MemberStatus
  pub invited_by : Option ℕ

pub record InvitationRow : Type 0 where
  pub id : ℕ
  pub team_id : ℕ
  pub email : String
  pub role : UserRole
  pub token : String
  pub expires_at : ℕ
  pub invited_by : Option ℕ
  pub accepted_at : Option ℕ

pub record Store : Type 0 where
  pub memberships : List Membership
  pub invitations : List InvitationRow
  pub next_invitation : ℕ
  pub plan_of : ℕ → Option PlanId
  pub email_of : ℕ → String

pub record Locale : Type 0 where
  pub lower : String → String
  pub trim : String → String

-- The codes of `InviteError`.
pub data InviteErrorCode : Type 0 where
  not_found expired already_accepted already_member pending_exists last_owner email_mismatch
        member_limit :
      InviteErrorCode

pub data Result (A : Type 0) : Type 0 where
  ok : A → Result A
  error : InviteErrorCode → Result A

abbrev pub invitation_ttl_ms : ℕ
invitation_ttl_ms = 7 * 24 * 60 * 60 * 1000

abbrev plan_or_free : Option PlanId → PlanId
plan_or_free none = free
plan_or_free (some p) = p

abbrev seats_or_members : Option ℕ → ℕ → ℕ
seats_or_members none n = n
seats_or_members (some s) n = s

-- `plan.features.seats ?? plan.maxMembers`, for the plan column or its default.
unfoldable pub seat_limit : Option PlanId → ℕ
unfolding plans
seat_limit p =
    let plan = plans (plan_or_free p) in seats_or_members plan.features.seats plan.max_members

unfoldable pub max_members_for_team : ℕ → Store → ℕ
max_members_for_team team db = seat_limit (db.plan_of team)

unfoldable pub next_plan_for_member_limit : PlanId → Option PlanId
next_plan_for_member_limit free = some pro
next_plan_for_member_limit pro = none
next_plan_for_member_limit max = none

abbrev pub is_accepted : MemberStatus → Bool
is_accepted accepted = true
is_accepted pending = false

abbrev pub is_owner : UserRole → Bool
is_owner owner = true
is_owner member = false

-- `team_id = $1 and status = 'accepted'`.
abbrev pub is_member_of : ℕ → Membership → Bool
is_member_of team m = m.team_id == team && is_accepted m.status

-- The primary key of `memberships`.
abbrev pub has_key : ℕ → ℕ → Membership → Bool
has_key team user m = m.team_id == team && m.user_id == user

-- `team_id = $1 and user_id = $2 and status = 'accepted'`.
abbrev pub is_membership : ℕ → ℕ → Membership → Bool
is_membership team user m = m.team_id == team && m.user_id == user && is_accepted m.status

-- `team_id = $1 and role = 'owner' and status = 'accepted'`.
abbrev pub is_owner_of : ℕ → Membership → Bool
is_owner_of team m = m.team_id == team && is_owner m.role && is_accepted m.status

abbrev pub is_unset : Option ℕ → Bool
is_unset none = true
is_unset (some t) = false

unfoldable pub count_members : ℕ → Store → ℕ
count_members team db = count (is_member_of team) db.memberships

-- `team_id = $1 and accepted_at is null and expires_at > now()`.
abbrev pub is_open_invitation : ℕ → ℕ → InvitationRow → Bool
is_open_invitation team now i = i.team_id == team && is_unset i.accepted_at && ltb now i.expires_at

unfoldable pub count_open : ℕ → ℕ → Store → ℕ
count_open team now db = count (is_open_invitation team now) db.invitations
