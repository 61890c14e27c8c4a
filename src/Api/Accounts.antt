-- ===== src/Api/Accounts.antt =====
-- apps/web/lib/team-core.ts: the team of a user, `getUserTeam`, `ensureUserTeam` and
-- `getOrCreateUserTeam`, over the tables `users`, `teams` and `memberships` of migration 001 and the
-- ledger with its subscriptions. Ids are numbers, and the id that the database generates for a team is
-- the next one. A query that takes one row without an order takes the first. Of the result, the name
-- of the team and the row of the user are left out, and so is `onboarding_completed_at`: nothing here
-- reads them. The foreign keys make
-- sure that the team of a membership is there when it is selected again.
use scan_pal.Common.{
  ℕ, suc, ◌≡◌, refl, arith, Option, none, some, List, [], ◌∷◌, ◌++◌, Bool, true, false, ◌&&◌, not,
  String, str_eq, ◌==◌, ==_self, ==_iff, eq_iff, if◌then◌else◌, exists, find, update, exists-last,
  find-exists, find-holds, Bool-cases, inl, inr,
}
use Prim.Native.String
use scan_pal.Billing.Ledger.{Ledger, Clock, ensure_subscription_row}
use scan_pal.Crawl.Robots.{before}

pub record AuthUser : Type 0 where
  pub id : ℕ
  pub email : String
  pub name : Option String
  pub avatar_url : Option String
  pub auth_provider : Option String

pub record UserRow : Type 0 where
  pub id : ℕ
  pub email : String
  pub name : Option String
  pub avatar_url : Option String
  pub auth_provider : Option String
  pub last_login_at : Option ℕ

pub record TeamRow : Type 0 where
  pub id : ℕ
  pub name : String

pub record TeamMembership : Type 0 where
  pub team_id : ℕ
  pub user_id : ℕ
  pub role : String
  pub status : String
  pub workspace_id : Option ℕ

pub record Accounts : Type 0 where
  pub users : List UserRow
  pub teams : List TeamRow
  pub memberships : List TeamMembership
  pub next_team_id : ℕ

abbrev pub is_user : ℕ → UserRow → Bool
is_user id u = u.id == id

abbrev pub belongs_to : ℕ → TeamMembership → Bool
belongs_to user_id m = m.user_id == user_id

-- The joins with `users` and `teams`.
unfoldable pub get_user_team : (user_id : ℕ) → Accounts → Option TeamMembership
get_user_team user_id a =
    if exists (is_user user_id) a.users
    then find
        (λ (m : TeamMembership).
          m.user_id == user_id && exists (λ (t : TeamRow). t.id == m.team_id) a.teams)
        a.memberships
    else none

abbrev coalesce : Option String → Option String → Option String
coalesce none old = old
coalesce (some s) old = some s

-- `insert into users ... on conflict (id) do update`.
unfoldable pub upsert_user :
    (sql_now : ℕ) → (record_login : Bool) → AuthUser → List UserRow → List UserRow
upsert_user sql_now record_login user users =
    if exists (is_user user.id) users
    then update (is_user user.id)
        (λ (u : UserRow). record u {
          email = user.email;
          name = coalesce user.name u.name;
          avatar_url = coalesce user.avatar_url u.avatar_url;
          auth_provider = coalesce user.auth_provider u.auth_provider;
          last_login_at = if record_login then some sql_now else u.last_login_at;
        })
        users
    else users
      ++ record {
        id = user.id;
        email = user.email;
        name = user.name;
        avatar_url = user.avatar_url;
        auth_provider = user.auth_provider;
        last_login_at = some sql_now;
      }
        ∷ []

-- `users.email` is unique: another user has the address, and the statement fails.
abbrev pub is_taken : AuthUser → List UserRow → Bool
is_taken user = exists (λ (u : UserRow). not (u.id == user.id) && str_eq u.email user.email)

-- `user.name.split(" ")[0]`, for a name that is not empty.
unfoldable pub team_name : Option String → String
unfolding before
team_name none = "Mijn team"
team_name (some name) =
    if str_eq name "" then "Mijn team" else String.◌++◌ (before 32 name) "'s team"

abbrev pub owner_of : (team_id user_id : ℕ) → TeamMembership
owner_of team_id user_id = record {
  team_id = team_id;
  user_id = user_id;
  role = "owner";
  status = "accepted";
  workspace_id = none;
}

-- A new team with its owner and a free subscription, or the team of the membership that is there.
abbrev pub place_in_team :
    Clock
    → AuthUser
    → Option TeamMembership
    → Accounts
    → Ledger
    → TeamMembership × (Accounts × Ledger)
place_in_team clock user (some m) a ledger = (m, (a, ledger))
place_in_team clock user none a ledger =
    let m = owner_of a.next_team_id user.id in
    (
      m,
      (
        record a {
          teams = a.teams ++ record { id = a.next_team_id; name = team_name user.name } ∷ [];
          memberships = a.memberships ++ m ∷ [];
          next_team_id = suc a.next_team_id;
        },
        record ledger {
          subscriptions = ensure_subscription_row clock a.next_team_id ledger.subscriptions;
        },
      ),
    )

-- The transaction; `none` is its error, after which it is rolled back.
unfoldable pub ensure_user_team :
    Clock
    → (record_login : Bool) → AuthUser
    → Accounts
    → Ledger
    → Option (TeamMembership × (Accounts × Ledger))
unfolding upsert_user team_name ensure_subscription_row
ensure_user_team clock record_login user a ledger =
    if is_taken user a.users
    then none
    else (let a' = record a { users = upsert_user clock.sql_now record_login user a.users } in
        some (place_in_team clock user (find (belongs_to user.id) a'.memberships) a' ledger))

unfoldable pub get_or_create_user_team :
    Clock → AuthUser → Accounts → Ledger → Option (TeamMembership × (Accounts × Ledger))
unfolding get_user_team ensure_user_team
get_or_create_user_team clock user a ledger = elim (get_user_team user.id a) [
  | some m ↦ some (m, (a, ledger))
  | none ↦ ensure_user_team clock false user a ledger
]

-- A row of `memberships` that gives the user this role in the team.
abbrev pub is_seat : (team_id user_id : ℕ) → (role : String) → TeamMembership → Bool
is_seat team_id user_id role m =
    m.team_id == team_id && (m.user_id == user_id && str_eq m.role role)

seat_self :
    (m : TeamMembership) (user_id : ℕ)
    → m.user_id ≡ user_id
    → is_seat m.team_id user_id m.role m ≡ true
seat_self m user_id same =
    rw (==_self m.team_id, same, ==_self user_id) ((eq_iff m.role m.role).1 refl)

-- The answer names a membership of the user that is in the tables then.
abbrev pub IsSeated : ℕ → Option (TeamMembership × (Accounts × Ledger)) → Type 0
IsSeated user_id none = Unit
IsSeated user_id (some (m, (a, _))) = exists (is_seat m.team_id user_id m.role) a.memberships ≡ true

place_in_team-IsSeated :
    (clock : Clock) (user : AuthUser) (o : Option TeamMembership) (a : Accounts) (ledger : Ledger)
    → find (belongs_to user.id) a.memberships ≡ o
    → IsSeated user.id (some (place_in_team clock user o a ledger))
place_in_team-IsSeated clock user none a ledger e =
    exists-last (is_seat a.next_team_id user.id "owner") a.memberships _
      (seat_self (owner_of a.next_team_id user.id) user.id refl)
place_in_team-IsSeated clock user (some m) a ledger e =
    let own : m.user_id ≡ user.id =
      (==_iff m.user_id user.id).0 (find-holds (belongs_to user.id) a.memberships m e) in
    find-exists (belongs_to user.id) _ a.memberships m e (seat_self m user.id own)

ensure_user_team-IsSeated :
    (clock : Clock) (record_login : Bool) (user : AuthUser) (a : Accounts) (ledger : Ledger)
    → IsSeated user.id (ensure_user_team clock record_login user a ledger)
unfolding ensure_user_team
ensure_user_team-IsSeated clock record_login user a ledger =
    elim (Bool-cases (is_taken user a.users)) [
      | inl taken ↦ rw taken tt
      | inr free ↦
          let a' : Accounts = record a {
            users = upsert_user clock.sql_now record_login user a.users;
          } in
          rw free (place_in_team-IsSeated clock user _ a' ledger refl)
    ]

-- The team that a user gets is one of which the user is a member then.
pub get_or_create_user_team-IsSeated :
    (clock : Clock) (user : AuthUser) (a : Accounts) (ledger : Ledger)
    → IsSeated user.id (get_or_create_user_team clock user a ledger)
unfolding get_or_create_user_team get_user_team
get_or_create_user_team-IsSeated clock user a ledger = go (get_user_team user.id a) refl
  where
    go :
        (o : Option TeamMembership)
        → get_user_team user.id a ≡ o
        → IsSeated user.id (elim o [
          | some m ↦ some (m, (a, ledger))
          | none ↦ ensure_user_team clock false user a ledger
        ])
    go none e = ensure_user_team-IsSeated clock false user a ledger
    go (some m) e = elim (Bool-cases (exists (is_user user.id) a.users)) [
      | inr missing ↦ absurd (ground (arith, e, missing))
      | inl known ↦
          let p = λ (n : TeamMembership).
            n.user_id == user.id && exists (λ (t : TeamRow). t.id == n.team_id) a.teams in
          let found : find p a.memberships ≡ some m = ground (arith, e, known) in
          let own : m.user_id ≡ user.id =
            (==_iff m.user_id user.id).0 (ground (arith, find-holds p a.memberships m found)) in
          find-exists p _ a.memberships m found (seat_self m user.id own)
    ]
