-- ===== src/Team/Owners.antt =====
-- A team keeps an owner, whatever roles are changed and whoever is removed.
use mathlib.Core.Path.{subst}
use native.Mathlib.Decide.{ℕ_discrete}
use scan_pal.Common.{
  sym, ℕ, ◌+◌, ◌≤◌, ◌≡◌, ◌≢◌, refl, some, List, [], ◌∷◌, Bool, ◌&&◌, arith, count, find,
  Option-cases, inl, inr, ◌⊎◌,
}
use scan_pal.Team.Store.{
  UserRole, owner, member, Membership, Store, has_key, is_membership, is_owner_of,
}
use scan_pal.Team.Member.{count_owners, set_role, delete_member, update_member_role, remove_member}

-- No two rows of `memberships` have the same primary key.
abbrev pub IsKeyed : List Membership → Type 0
IsKeyed ms = (team user : ℕ) → count (has_key team user) ms ≤ 1

-- The rows of a user that are owners of the team: one at most.
abbrev pub is_owning : (team user : ℕ) → Membership → Bool
is_owning team user m = has_key team user m && is_owner_of team m

owning-le-key :
    (team user : ℕ) (ms : List Membership)
    → count (is_owning team user) ms ≤ count (has_key team user) ms
owning-le-key team user [] = omega arith
owning-le-key team user (m ∷ ms) = ground (arith, owning-le-key team user ms)

-- A user whose row is found with the role `member` owns nothing.
found_member-owns_nothing :
    (team user : ℕ) (ms : List Membership) (m : Membership)
    → count (has_key team user) ms ≤ 1
    → find (is_membership team user) ms ≡ some m
    → m.role ≡ member
    → count (is_owning team user) ms ≡ 0
found_member-owns_nothing team user [] m k f r = refl
found_member-owns_nothing team user (x ∷ ms) m k f r =
    ground (arith, found_member-owns_nothing team user ms m, owning-le-key team user ms)

pub demote-count :
    (team user : ℕ) (ms : List Membership)
    → count_owners team ms
      ≡ count_owners team (set_role team user member ms) + count (is_owning team user) ms
unfolding count_owners set_role
demote-count team user [] = refl
demote-count team user (m ∷ ms) = ground (arith, demote-count team user ms)

promote-count :
    (team user other : ℕ) (ms : List Membership)
    → count_owners other ms ≤ count_owners other (set_role team user owner ms)
unfolding count_owners set_role
promote-count team user other [] = omega arith
promote-count team user other (m ∷ ms) = ground (arith, promote-count team user other ms)

set_role-other :
    (team user other : ℕ) (role : UserRole) (ms : List Membership)
    → other ≢ team
    → count_owners other (set_role team user role ms) ≡ count_owners other ms
unfolding count_owners set_role
set_role-other team user other role [] n = refl
set_role-other team user other role (m ∷ ms) n =
    ground (arith, set_role-other team user other role ms n)

delete-count :
    (team user : ℕ) (ms : List Membership)
    → count_owners team ms
      ≡ count_owners team (delete_member team user ms) + count (is_owning team user) ms
unfolding count_owners delete_member
delete-count team user [] = refl
delete-count team user (m ∷ ms) = ground (arith, delete-count team user ms)

delete-other :
    (team user other : ℕ) (ms : List Membership)
    → other ≢ team
    → count_owners other (delete_member team user ms) ≡ count_owners other ms
unfolding count_owners delete_member
delete-other team user other [] n = refl
delete-other team user other (m ∷ ms) n = ground (arith, delete-other team user other ms n)

-- The team itself keeps an owner.
update-own :
    (team user : ℕ) (role : UserRole) (db : Store)
    → IsKeyed db.memberships
    → 1 ≤ count_owners team db.memberships
    → 1 ≤ count_owners team (update_member_role team user role db).0.memberships
unfolding update_member_role
update-own team user owner db k h = ground (arith, promote-count team user team db.memberships)
update-own team user member db k h = ground (
  arith,
  demote-count team user db.memberships,
  owning-le-key team user db.memberships,
  k team user,
)

remove-own_found :
    (team user : ℕ) (db : Store) (m : Membership)
    → find (is_membership team user) db.memberships ≡ some m
    → (m.role ≡ owner) ⊎ (m.role ≡ member)
    → IsKeyed db.memberships
    → 1 ≤ count_owners team db.memberships
    → 1 ≤ count_owners team (remove_member team user db).0.memberships
unfolding remove_member
remove-own_found team user db m f (inl own) k h = ground (
  arith,
  delete-count team user db.memberships,
  owning-le-key team user db.memberships,
  k team user,
)
remove-own_found team user db m f (inr plain) k h = ground (
  arith,
  delete-count team user db.memberships,
  found_member-owns_nothing team user db.memberships m (k team user) f plain,
)

Role-cases : (r : UserRole) → (r ≡ owner) ⊎ (r ≡ member)
Role-cases owner = inl refl
Role-cases member = inr refl

remove-own :
    (team user : ℕ) (db : Store)
    → IsKeyed db.memberships
    → 1 ≤ count_owners team db.memberships
    → 1 ≤ count_owners team (remove_member team user db).0.memberships
unfolding remove_member
remove-own team user db k h = elim (Option-cases (find (is_membership team user) db.memberships)) [
  | inl e ↦ ground arith
  | inr (m, e) ↦ remove-own_found team user db m e (Role-cases m.role) k h
]

update-other :
    (team user other : ℕ) (role : UserRole) (db : Store)
    → other ≢ team
    → count_owners other (update_member_role team user role db).0.memberships
      ≡ count_owners other db.memberships
unfolding update_member_role
update-other team user other role db n =
    ground (arith, set_role-other team user other role db.memberships n)

remove-other :
    (team user other : ℕ) (db : Store)
    → other ≢ team
    → count_owners other (remove_member team user db).0.memberships
      ≡ count_owners other db.memberships
unfolding remove_member
remove-other team user other db n = ground (arith, delete-other team user other db.memberships n)

-- Changing a member's role never takes the last owner from any team, where a user has at most one
-- membership of a team.
pub update_member_role-owners :
    (team user other : ℕ) (role : UserRole) (db : Store)
    → IsKeyed db.memberships
    → 1 ≤ count_owners other db.memberships
    → 1 ≤ count_owners other (update_member_role team user role db).0.memberships
update_member_role-owners team user other role db k h = elim (ℕ_discrete other team) [
  | yes e ↦
      subst (λ t. 1 ≤ count_owners t (update_member_role team user role db).0.memberships) (sym e)
        (update-own team user role db k (subst (λ t. 1 ≤ count_owners t db.memberships) e h))
  | no n ↦ rw (update-other team user other role db n) h
]

-- Removing a member never takes the last owner from any team, where a user has at most one
-- membership of a team.
pub remove_member-owners :
    (team user other : ℕ) (db : Store)
    → IsKeyed db.memberships
    → 1 ≤ count_owners other db.memberships
    → 1 ≤ count_owners other (remove_member team user db).0.memberships
remove_member-owners team user other db k h = elim (ℕ_discrete other team) [
  | yes e ↦
      subst (λ t. 1 ≤ count_owners t (remove_member team user db).0.memberships) (sym e)
        (remove-own team user db k (subst (λ t. 1 ≤ count_owners t db.memberships) e h))
  | no n ↦ rw (remove-other team user other db n) h
]
