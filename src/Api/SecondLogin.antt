-- ===== src/Api/SecondLogin.antt =====
-- What a second request of a user finds: apps/web/lib/team-core.ts.
use scan_pal.Common.{
  ℕ, ◌≡◌, refl, sym, ap, ◌∙◌, arith, Option, none, some, List, [], ◌∷◌, ◌++◌, Bool, true, false,
  ◌&&◌, ◌==◌, ==_self, ==_iff, find-holds, exists, find, count, exists-last, exists-update_same,
  find-exists, find-snoc, count-and_le, count-none_of_exists, Bool-cases, Option-cases, inl, inr,
}
use mathlib.Core.Path.{subst}
use scan_pal.Billing.Ledger.{Ledger, Clock}
use scan_pal.Api.Accounts.{
  AuthUser, UserRow, TeamRow, TeamMembership, Accounts, is_user, belongs_to, get_user_team,
  upsert_user, is_taken, team_name, owner_of, place_in_team, ensure_user_team,
  get_or_create_user_team,
}

-- The user and the team of a membership are there.
abbrev IsLinkedTo : Accounts → Option TeamMembership → Type 0
IsLinkedTo a none = Unit
IsLinkedTo a (some m) =
    (exists (is_user m.user_id) a.users ≡ true)
    × (exists (λ (t : TeamRow). t.id == m.team_id) a.teams ≡ true)

-- The foreign keys hold of the first membership of a user.
abbrev pub IsLinked : ℕ → Accounts → Type 0
IsLinked user_id a = IsLinkedTo a (find (belongs_to user_id) a.memberships)

is_missing :
    (p : TeamMembership → Bool) (ms : List TeamMembership) → find p ms ≡ none → exists p ms ≡ false
is_missing p [] e = refl
is_missing p (m ∷ ms) e = elim (Bool-cases (p m)) [
  | inl hit ↦ absurd (ground (arith, e, hit))
  | inr miss ↦ rw miss (is_missing p ms (ground (arith, e, miss)))
]

-- A user whose membership is linked and who has no team has no membership.
no_membership :
    (user_id : ℕ) (a : Accounts)
    → IsLinked user_id a
    → get_user_team user_id a ≡ none
    → exists (belongs_to user_id) a.memberships ≡ false
unfolding get_user_team
no_membership user_id a linked e = elim (Option-cases (find (belongs_to user_id) a.memberships)) [
  | inl missing ↦ is_missing (belongs_to user_id) a.memberships missing
  | inr (m, found) ↦
      let p = λ (n : TeamMembership).
        n.user_id == user_id && exists (λ (t : TeamRow). t.id == n.team_id) a.teams in
      let (user, team) = subst (IsLinkedTo a) found linked in
      let own : m.user_id ≡ user_id =
        (==_iff m.user_id user_id).0 (find-holds (belongs_to user_id) a.memberships m found) in
      let known : exists (is_user user_id) a.users ≡ true =
        subst (λ i. exists (is_user i) a.users ≡ true) own user in
      let hit : p m ≡ true = rw (own, ==_self user_id) team in
      let some_hit : exists p a.memberships ≡ true =
        find-exists (belongs_to user_id) p a.memberships m found hit in
      let no_hit : exists p a.memberships ≡ false =
        is_missing p a.memberships (ground (arith, e, known)) in
      absurd (ground (arith, some_hit, no_hit))
]

upsert_user-exists :
    (now : ℕ) (record_login : Bool) (user : AuthUser) (users : List UserRow)
    → exists (is_user user.id) (upsert_user now record_login user users) ≡ true
unfolding upsert_user
upsert_user-exists now record_login user users =
    elim (Bool-cases (exists (is_user user.id) users)) [
      | inl known ↦
          rw known
            (exists-update_same (is_user user.id) (is_user user.id) _ users (λ u. refl) ∙ known)
      | inr new ↦ rw new (exists-last (is_user user.id) users _ (==_self user.id))
    ]

-- The team that was made is the one that is found.
place_in_team-found :
    (clock : Clock) (user : AuthUser) (a : Accounts) (ledger : Ledger)
    → exists (is_user user.id) a.users ≡ true
    → exists (belongs_to user.id) a.memberships ≡ false
    → get_user_team user.id (place_in_team clock user none a ledger).1.0
      ≡ some (owner_of a.next_team_id user.id)
unfolding get_user_team
place_in_team-found clock user a ledger known alone =
    let teams = a.teams ++ record { id = a.next_team_id; name = team_name user.name } ∷ [] in
    let there : exists (λ (t : TeamRow). t.id == a.next_team_id) teams ≡ true =
      exists-last (λ (t : TeamRow). t.id == a.next_team_id) a.teams _ (==_self a.next_team_id) in
    let q = λ (n : TeamMembership). exists (λ (t : TeamRow). t.id == n.team_id) teams in
    let p = λ (n : TeamMembership). n.user_id == user.id && q n in
    let before : count p a.memberships ≡ 0 = omega (
      arith,
      count-and_le (belongs_to user.id) q a.memberships,
      count-none_of_exists (belongs_to user.id) a.memberships alone,
    ) in
    rw known (
      find-snoc p a.memberships (owner_of a.next_team_id user.id) before
        (rw (==_self user.id) there))

ensure_user_team-found :
    (clock : Clock) (user : AuthUser) (a a' : Accounts) (ledger ledger' : Ledger)
    (m : TeamMembership)
    → exists (belongs_to user.id) a.memberships ≡ false
    → find (belongs_to user.id) a.memberships ≡ none
    → ensure_user_team clock false user a ledger ≡ some (m, (a', ledger'))
    → get_user_team user.id a' ≡ some m
unfolding ensure_user_team
ensure_user_team-found clock user a a' ledger ledger' m alone missing h =
    elim (Bool-cases (is_taken user a.users)) [
      | inl taken ↦ absurd (ground (arith, h, taken))
      | inr free ↦
          let stored : Accounts = record a {
            users = upsert_user clock.sql_now false user a.users;
          } in
          let placed = place_in_team clock user none stored ledger in
          let same : some placed ≡ some (m, (a', ledger')) = rw (free, missing) at h in
          let found =
            place_in_team-found clock user stored ledger
              (upsert_user-exists clock.sql_now false user a.users) alone in
          let accounts : placed.1.0 ≡ a' = ground (arith, same) in
          let row : placed.0 ≡ m = ground (arith, same) in
          ap (get_user_team user.id) (sym accounts) ∙ found ∙ ap some row
    ]

is_absent :
    (p : TeamMembership → Bool) (ms : List TeamMembership) → exists p ms ≡ false → find p ms ≡ none
is_absent p [] h = refl
is_absent p (m ∷ ms) h = ground (arith, is_absent p ms)

get_or_create_user_team-found :
    (clock : Clock) (user : AuthUser) (a a' : Accounts) (ledger ledger' : Ledger)
    (m : TeamMembership)
    → IsLinked user.id a
    → get_or_create_user_team clock user a ledger ≡ some (m, (a', ledger'))
    → get_user_team user.id a' ≡ some m
unfolding get_or_create_user_team
get_or_create_user_team-found clock user a a' ledger ledger' m linked h =
    elim (Option-cases (get_user_team user.id a)) [
      | inr (found, e) ↦
          let same : some (found, (a, ledger)) ≡ some (m, (a', ledger')) =
            rw (get_or_create_user_team, e) at h in
          let accounts : a ≡ a' = ground (arith, same) in
          let row : found ≡ m = ground (arith, same) in
          ap (get_user_team user.id) (sym accounts) ∙ e ∙ ap some row
      | inl e ↦
          let alone = no_membership user.id a linked e in
          ensure_user_team-found clock user a a' ledger ledger' m alone
            (is_absent (belongs_to user.id) a.memberships alone)
            (rw (get_or_create_user_team, e) at h)
    ]

-- Once a user got a team, in tables where the first membership of the user, if there is one, has
-- its user and its team, a later request of the same user, with whatever data and clock, gets the
-- same membership and changes neither the accounts nor the ledger.
pub get_or_create_user_team-again :
    (clock clock' : Clock) (user user' : AuthUser) (a a' : Accounts)
    (ledger ledger' ledger'' : Ledger) (m : TeamMembership)
    → IsLinked user.id a
    → user'.id ≡ user.id
    → get_or_create_user_team clock user a ledger ≡ some (m, (a', ledger'))
    → get_or_create_user_team clock' user' a' ledger'' ≡ some (m, (a', ledger''))
unfolding get_or_create_user_team
get_or_create_user_team-again clock clock' user user' a a' ledger ledger' ledger'' m linked same h =
    let found = get_or_create_user_team-found clock user a a' ledger ledger' m linked h in
    rw (get_or_create_user_team, ap (λ i. get_user_team i a') same ∙ found) refl
