-- ===== src/Team/Member.antt =====
-- apps/web/lib/invites-core.ts: changing a member's role and removing a member. The code runs the
-- check and the write as separate statements, without a transaction: each has a function here.
use scan_pal.Common.{
  ℕ, Option, none, some, List, Bool, true, false, not, ◌&&◌, if◌then◌else◌, leb, count, find,
  select, update,
}
use scan_pal.Team.Store.{
  UserRole, owner, member, Membership, Store, InviteErrorCode, not_found, last_owner, is_owner,
  is_owner_of, has_key, is_membership,
}

abbrev pub same_role : UserRole → UserRole → Bool
same_role owner owner = true
same_role member member = true
same_role _ _ = false

-- What a check decides: write, return, or throw.
pub data Verdict : Type 0 where
  write stop : Verdict
  throw : InviteErrorCode → Verdict

unfoldable pub count_owners : ℕ → List Membership → ℕ
count_owners team ms = count (is_owner_of team) ms

abbrev check_role : ℕ → UserRole → Option Membership → List Membership → Verdict
check_role team role none ms = throw not_found
check_role team role (some m) ms =
    if same_role m.role role
    then stop
    else (if is_owner m.role && not (is_owner role) && leb (count_owners team ms) 1
        then throw last_owner
        else write)

unfoldable pub check_update : (team user : ℕ) → UserRole → List Membership → Verdict
unfolding count_owners
check_update team user role ms = check_role team role (find (is_membership team user) ms) ms

-- `update memberships set role = $1 where team_id = $2 and user_id = $3`.
unfoldable pub set_role : (team user : ℕ) → UserRole → List Membership → List Membership
set_role team user role = update (has_key team user) (λ (m : Membership). record m { role = role })

abbrev check_owner : ℕ → Option Membership → List Membership → Verdict
check_owner team none ms = throw not_found
check_owner team (some m) ms =
    if is_owner m.role && leb (count_owners team ms) 1 then throw last_owner else write

unfoldable pub check_remove : (team user : ℕ) → List Membership → Verdict
unfolding count_owners
check_remove team user ms = check_owner team (find (is_membership team user) ms) ms

-- `delete from memberships where team_id = $1 and user_id = $2`.
unfoldable pub delete_member : (team user : ℕ) → List Membership → List Membership
delete_member team user = select (λ (m : Membership). not (has_key team user m))

abbrev run_verdict :
    Verdict → (List Membership → List Membership) → List Membership → List Membership
run_verdict write f ms = f ms
run_verdict stop f ms = ms
run_verdict (throw e) f ms = ms

unfoldable pub update_member_role : (team user : ℕ) → UserRole → Store → Store × Verdict
unfolding check_update set_role
update_member_role team user role db =
    let v = check_update team user role db.memberships in
    (record db { memberships = run_verdict v (set_role team user role) db.memberships }, v)

unfoldable pub remove_member : (team user : ℕ) → Store → Store × Verdict
unfolding check_remove delete_member
remove_member team user db =
    let v = check_remove team user db.memberships in
    (record db { memberships = run_verdict v (delete_member team user) db.memberships }, v)
