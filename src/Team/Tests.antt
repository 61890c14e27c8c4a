-- ===== src/Team/Tests.antt =====
-- A small team, and the theorems about invitations and roles at concrete inputs.
use scan_pal.Common.{ℕ, ◌≤◌, ◌≡◌, refl, none, some, List, [], ◌∷◌, arith}
use scan_pal.Billing.Plans.{free}
use scan_pal.Team.Store.{
  UserRole, owner, member, MemberStatus, Membership, Store, Locale, max_members_for_team,
  seat_limit, count_members, count_open,
}
use scan_pal.Team.Invite.{InviteInput, Now, create_invitation, accept_invitation}
use scan_pal.Team.Member.{write, count_owners, check_update, set_role, update_member_role}
use scan_pal.Team.Seats.{IsSeated, accept_invitation-IsSeated}
use scan_pal.Team.Owners.{IsKeyed, update_member_role-owners}
use scan_pal.Team.Race.{set_role-race}

abbrev loc : Locale
loc = record { lower = λ s. s; trim = λ s. s }

abbrev now : Now
now = record { sql_now = 100; js_now = 101 }

abbrev row : ℕ → UserRole → Membership
row user role = record {
  team_id = 7;
  user_id = user;
  role = role;
  status = MemberStatus.accepted;
  invited_by = none;
}

abbrev two_owners : List Membership
two_owners = row 1 owner ∷ row 2 owner ∷ []

abbrev db : Store
db = record {
  memberships = two_owners;
  invitations = [];
  next_invitation = 0;
  plan_of = λ t. some free;
  email_of = λ u. "old@x.nl";
}

abbrev ask : InviteInput
ask = record { team_id = 7; email = "new@x.nl"; role = member; invited_by = 1 }

db-IsSeated : IsSeated db
unfolding count_members max_members_for_team seat_limit
db-IsSeated team = ground arith

invited-IsSeated : IsSeated (create_invitation loc now "t" ask db).0
unfolding create_invitation count_members count_open max_members_for_team seat_limit
invited-IsSeated team = ground arith

accept_invitation-IsSeated_example :
    IsSeated
      (accept_invitation loc now "t"
        (record { user_id = 3; email = "new@x.nl" })
        (create_invitation loc now "t" ask db).0).0
accept_invitation-IsSeated_example =
    accept_invitation-IsSeated loc now "t" (record { user_id = 3; email = "new@x.nl" })
      (create_invitation loc now "t" ask db).0 invited-IsSeated

two_owners-IsKeyed : IsKeyed two_owners
two_owners-IsKeyed team user = ground arith

update_member_role-owners_example :
    1 ≤ count_owners 7 (update_member_role 7 1 member db).0.memberships
update_member_role-owners_example =
    update_member_role-owners 7 1 7 member db two_owners-IsKeyed
      (unfold count_owners in omega arith)

set_role-race_example :
    (check_update 7 1 member two_owners ≡ write)
    × (check_update 7 2 member two_owners ≡ write)
    × (count_owners 7 (set_role 7 2 member (set_role 7 1 member two_owners)) ≡ 0)
set_role-race_example =
    set_role-race 7 1 2 two_owners (λ e. omega arith) refl refl (unfold count_owners in refl)
