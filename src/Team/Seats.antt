-- ===== src/Team/Seats.antt =====
-- The seat limit: what creating and accepting an invitation keep.
use scan_pal.Common.{
  ℕ, suc, ◌+◌, ◌≤◌, ◌≡◌, List, [], ◌∷◌, true, false, String, arith, ◌==◌, exists, count,
  count-append, Bool-cases, Option-cases, inl, inr, ◌⊎◌,
}
use scan_pal.Team.Store.{
  Membership, InvitationRow, Store, Locale, ok, max_members_for_team, is_member_of, has_key,
  is_membership, count_members, count_open, is_open_invitation,
}
use scan_pal.Team.Invite.{
  InviteInput, Now, AcceptInput, create_invitation, accept_invitation, new_invitation,
  get_invitation, insert_membership, membership_of, join_team, check_invitation,
}

-- After an invitation was created, the accepted members and the open invitations of the team
-- together do not pass its number of seats.
pub create_invitation-seats :
    (loc : Locale) (now : Now) (token : String) (input : InviteInput) (db db' : Store)
    (i : InvitationRow)
    → create_invitation loc now token input db ≡ (db', ok i)
    → count_members input.team_id db' + count_open input.team_id now.sql_now db'
      ≤ max_members_for_team input.team_id db'
unfolding create_invitation count_members count_open max_members_for_team
create_invitation-seats loc now token input db db' i h =
    let new = new_invitation now (loc.lower (loc.trim input.email)) token input db in
    ground
      (arith, count-append (is_open_invitation input.team_id now.sql_now) db.invitations (new ∷ []))

exists-key :
    (team user : ℕ) (ms : List Membership)
    → exists (is_membership team user) ms ≡ true
    → exists (has_key team user) ms ≡ true
exists-key team user [] h = h
exists-key team user (m ∷ ms) h = ground (arith, exists-key team user ms)

-- No team has more accepted members than its plan allows.
abbrev pub IsSeated : Store → Type 0
IsSeated db = (team : ℕ) → count_members team db ≤ max_members_for_team team db

insert_membership-count :
    (team : ℕ) (input : AcceptInput) (i : InvitationRow) (ms : List Membership)
    → (count (is_member_of team) (insert_membership input i ms) ≤ count (is_member_of team) ms)
      ⊎ ((count (is_member_of team) (insert_membership input i ms)
            ≤ suc (count (is_member_of team) ms))
          × (team ≡ i.team_id)
          × (exists (has_key team input.user_id) ms ≡ false))
unfolding insert_membership
insert_membership-count team input i ms =
    elim (Bool-cases (exists (has_key i.team_id input.user_id) ms)) [
      | inl old ↦ inl (rw old (omega arith))
      | inr new ↦ elim (Bool-cases (team == i.team_id)) [
        | inl same ↦ inr (
          rw new (ground (arith, count-append (is_member_of team) ms (membership_of input i ∷ []))),
          ground arith,
          ground arith,
        )
        | inr other ↦ inl (
            rw new
              (ground (arith, count-append (is_member_of team) ms (membership_of input i ∷ []))))
      ]
    ]

join_team-IsSeated :
    (now : Now) (input : AcceptInput) (i : InvitationRow) (db : Store)
    → IsSeated db
    → IsSeated (join_team now input i db).0
unfolding join_team count_members max_members_for_team
join_team-IsSeated now input i db s team = ground (
  arith,
  s team,
  insert_membership-count team input i db.memberships,
  exists-key i.team_id input.user_id db.memberships,
)

check_invitation-IsSeated :
    (loc : Locale) (now : Now) (input : AcceptInput) (i : InvitationRow) (db : Store)
    → IsSeated db
    → IsSeated (check_invitation loc now input i db).0
check_invitation-IsSeated loc now input i db s team =
    ground (arith, s team, join_team-IsSeated now input i db s team)

-- If no team has more accepted members than its plan has seats, accepting an invitation keeps it
-- so, also when it fails.
pub accept_invitation-IsSeated :
    (loc : Locale) (now : Now) (token : String) (input : AcceptInput) (db : Store)
    → IsSeated db
    → IsSeated (accept_invitation loc now token input db).0
unfolding accept_invitation
accept_invitation-IsSeated loc now token input db s =
    elim (Option-cases (get_invitation token db)) [
      | inl e ↦ rw e s
      | inr (i, e) ↦ rw e (check_invitation-IsSeated loc now input i db s)
    ]
