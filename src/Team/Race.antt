-- ===== src/Team/Race.antt =====
-- Two demotions at once: the check and the write of `updateMemberRole` are separate statements
-- outside a transaction, so that another call's statements can come between them.
use scan_pal.Common.{ℕ, ◌≤◌, ◌≡◌, ◌≢◌, refl, Option, none, some, List, [], ◌∷◌, arith, count, find}
use scan_pal.Team.Store.{owner, member, Membership, is_membership}
use scan_pal.Team.Member.{write, count_owners, check_update, set_role}
use scan_pal.Team.Owners.{is_owning, demote-count}

-- The user is found as an owner of the team.
abbrev pub IsFoundOwner : (team user : ℕ) → Option Membership → Type 0
IsFoundOwner team user none = ⊥
IsFoundOwner team user (some m) = m.role ≡ owner

found_owner-owning :
    (team user : ℕ) (ms : List Membership)
    → IsFoundOwner team user (find (is_membership team user) ms)
    → 1 ≤ count (is_owning team user) ms
found_owner-owning team user [] h = absurd h
found_owner-owning team user (m ∷ ms) h = ground (arith, found_owner-owning team user ms)

owning-set_role :
    (team user other : ℕ) (ms : List Membership)
    → user ≢ other
    → count (is_owning team other) (set_role team user member ms) ≡ count (is_owning team other) ms
unfolding set_role
owning-set_role team user other [] n = refl
owning-set_role team user other (m ∷ ms) n = ground (arith, owning-set_role team user other ms n)

check_update-two :
    (team user : ℕ) (ms : List Membership)
    → IsFoundOwner team user (find (is_membership team user) ms)
    → count_owners team ms ≡ 2
    → check_update team user member ms ≡ write
unfolding check_update
check_update-two team user ms h two = ground arith

-- In a team with exactly two owners each of them passes the check of a change to member, and when
-- both checks run before both writes the team is left with no owner.
pub set_role-race :
    (team user other : ℕ) (ms : List Membership)
    → user ≢ other
    → IsFoundOwner team user (find (is_membership team user) ms)
    → IsFoundOwner team other (find (is_membership team other) ms)
    → count_owners team ms ≡ 2
    → (check_update team user member ms ≡ write)
      × (check_update team other member ms ≡ write)
      × (count_owners team (set_role team other member (set_role team user member ms)) ≡ 0)
set_role-race team user other ms n h k two = (
  check_update-two team user ms h two,
  check_update-two team other ms k two,
  omega (
    arith,
    demote-count team user ms,
    demote-count team other (set_role team user member ms),
    owning-set_role team user other ms n,
    found_owner-owning team user ms h,
    found_owner-owning team other ms k,
  ),
)
