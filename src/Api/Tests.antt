-- ===== src/Api/Tests.antt =====
-- The theorems about the API at concrete inputs, with Redis as a table in memory.
use scan_pal.Common.{
  ℕ, suc, ◌≤◌, ◌+◌, ◌*◌, ◌≡◌, ◌≢◌, refl, ap, arith, Option, none, some, [], ◌∷◌, Bool, true, false,
  String, ◌==◌, if◌then◌else◌, Bool-cases, inl, inr, exists, count, min,
}
use scan_pal.Billing.Ledger.{Ledger, ensure_subscription_row, Clock as LedgerClock}
use scan_pal.Billing.Entitlement.{get_plan_for_team}
use scan_pal.Api.Redis.{RateKey, Redis, Entry, RedisLaws, bumped, value_at}
use scan_pal.Api.RateLimit.{is_ok, check_all, check_rate_limit, count_call}
use scan_pal.Api.Window.{check_all-window}
use scan_pal.Api.Keys.{
  Keys, CreateInput, create_api_key, revoke_api_key, find_api_key, find_api_key_by_prefix,
}
use scan_pal.Api.Auth.{
  Request, Clock, ApiState, require_session, require_team, require_all, require_api_key, is_refused,
  admit,
}
use scan_pal.Api.SecondLogin.{get_or_create_user_team-again}
use scan_pal.Api.Accounts.{get_or_create_user_team, Accounts, AuthUser, owner_of}
use scan_pal.Api.Access.{IsAnswer, require_team-IsAnswer}
use scan_pal.Api.Revoked.{is_key_of, revoke_api_key-require_all}
use scan_pal.Api.Lookup.{create_api_key-find, made_row}

abbrev Table : Type 0
Table = RateKey → Option Entry

abbrev is_same : RateKey → RateKey → Bool
is_same (RateKey.key i) (RateKey.key j) = i == j
is_same (RateKey.team i) (RateKey.team j) = i == j
is_same _ _ = false

abbrev write : RateKey → Entry → Table → Table
write k e s j = if is_same j k then some e else s j

abbrev expiring : ℕ → Option Entry → Option Entry
expiring at none = none
expiring at (some e) = some (record { value = e.value; deadline = some at })

abbrev table_redis : Redis Table
table_redis = record {
  incr = λ now k s. (suc (value_at now (s k)), write k (bumped now (s k)) s);
  expire = λ now k seconds s j. if is_same j k then expiring (now + 1000 * seconds) (s j) else s j;
  ttl = λ now k s. none;
}

same_self : (k : RateKey) → is_same k k ≡ true
same_self (RateKey.key i) = ground arith
same_self (RateKey.team i) = ground arith

same_true : (j k : RateKey) → is_same j k ≡ true → j ≡ k
same_true (RateKey.key i) (RateKey.key j) h = ap RateKey.key (ground (arith, h))
same_true (RateKey.team i) (RateKey.team j) h = ap RateKey.team (ground (arith, h))
same_true (RateKey.key i) (RateKey.team j) h = absurd (ground (arith, h))
same_true (RateKey.team i) (RateKey.key j) h = absurd (ground (arith, h))

same_false : (j k : RateKey) → j ≢ k → is_same j k ≡ false
same_false j k h = elim (Bool-cases (is_same j k)) [
  | inl e ↦ absurd (h (same_true j k e))
  | inr e ↦ e
]

abbrev table_laws : RedisLaws table_redis
table_laws = record {
  entry = λ s k. s k;
  incr-value = λ now k s. refl;
  incr-entry = λ now k s. rw (same_self k) refl;
  incr-others = λ now k j s h. rw (same_false j k h) refl;
  expire-entry = λ now k seconds s e h live. rw (same_self k, h) refl;
  expire-others = λ now k j seconds s h. rw (same_false j k h) refl;
}

abbrev empty : Table
empty k = none

check_all-window_example :
    (count is_ok (check_all table_redis (1000 ∷ 2000 ∷ 3000 ∷ []) (RateKey.key 1) 2 60 empty).0
      ≡ min 2 3)
    × ((t : ℕ)
        → 61000 ≤ t
        → value_at t (
            (check_all table_redis (1000 ∷ 2000 ∷ 3000 ∷ []) (RateKey.key 1) 2 60 empty).1
              (RateKey.key 1))
          ≡ 0)
check_all-window_example =
    check_all-window table_redis table_laws (RateKey.key 1) 2 60 1000 (2000 ∷ 3000 ∷ []) empty
      (omega arith) refl refl

abbrev hash : String → String
hash s = s

abbrev input : CreateInput
input = record { team_id = 7; created_by = 3; name = "ci" }

abbrev one_key : Keys
unfolding create_api_key
one_key =
    (create_api_key hash 1 500 "AAAAAAAbbbb" input (record { api_keys = []; api_key_usage = [] })).0

-- The first seven random characters of the second key are those of the first.
find_api_key_by_prefix_shared :
    let made = create_api_key hash 2 600 "AAAAAAAcccc" input one_key in
    (find_api_key "sp_live_AAAAAAAcccc" made.0 ≡ some (made_row hash 2 600 "AAAAAAAcccc" input))
    × (find_api_key_by_prefix "sp_live_AAAAAAA" made.0
        ≡ some (made_row hash 1 500 "AAAAAAAbbbb" input))
unfolding create_api_key find_api_key find_api_key_by_prefix one_key
find_api_key_by_prefix_shared = create_api_key-find hash 2 600 "AAAAAAAcccc" input one_key

abbrev ledger : Ledger
ledger = record { subscriptions = λ t. none; transactions = [] }

abbrev no_accounts : Accounts
no_accounts = record { users = []; teams = []; memberships = []; next_team_id = 1 }

abbrev clock : Clock
clock = record { now = 1000; sql_now = 1001; day = 0 }

abbrev bearer : Request
bearer = record {
  hmac_prefix = none;
  bearer_key = some "sp_live_AAAAAAAbbbb";
  signature = none;
  timestamp = none;
  session_user = none;
  verify = λ key_hash timestamp signature. some false;
}

abbrev state : ApiState Table
unfolding one_key
state = record { keys = one_key; accounts = no_accounts; ledger = ledger; limits = empty }

require_team-IsAnswer_example :
    IsAnswer clock
      (require_team table_redis hash clock bearer state).0
      state
      (require_team table_redis hash clock bearer state).1
require_team-IsAnswer_example = require_team-IsAnswer table_redis hash clock bearer state

revoke_api_key-require_all_example :
    exists (is_key_of 7 1) (
      require_all table_redis hash
        ((clock, bearer) ∷ [])
        (record state { keys = (revoke_api_key 900 7 1 state.keys).0 }))
    ≡ false
revoke_api_key-require_all_example =
    revoke_api_key-require_all table_redis hash 900 7 1 ((clock, bearer) ∷ []) state

-- Before the key is revoked, the same request is let in.
require_all-bearer :
    exists (is_key_of 7 1) (require_all table_redis hash ((clock, bearer) ∷ []) state) ≡ true
unfolding require_all require_team require_api_key find_api_key is_refused admit check_rate_limit
    count_call get_plan_for_team one_key create_api_key
require_all-bearer = refl

abbrev ada : AuthUser
ada = record {
  id = 9;
  email = "ada@example.com";
  name = some "Ada L";
  avatar_url = none;
  auth_provider = none;
}

-- At the first request of a new user a team is made; at the second it is found.
first_login :
    let second = (require_session table_redis hash clock (some ada) state).1 in
    (second.accounts.memberships ≡ owner_of 1 9 ∷ [])
    × ((require_session table_redis hash clock (some ada) second).1.accounts ≡ second.accounts)
unfolding get_or_create_user_team state
first_login = (refl, refl)

-- The accounts and the ledger after the first request.
abbrev joined : Accounts
joined = record {
  users =
      record {
        id = 9;
        email = "ada@example.com";
        name = some "Ada L";
        avatar_url = none;
        auth_provider = none;
        last_login_at = some 5;
      }
      ∷ [];
  teams = record { id = 1; name = "Ada's team" } ∷ [];
  memberships = owner_of 1 9 ∷ [];
  next_team_id = 2;
}

abbrev times : LedgerClock
times = record { sql_now = 5; js_now = 5 }

get_or_create_user_team-again_example :
    get_or_create_user_team times (record ada { name = none }) joined ledger
    ≡ some (owner_of 1 9, (joined, ledger))
unfolding get_or_create_user_team
get_or_create_user_team-again_example =
    get_or_create_user_team-again times times ada (record ada { name = none }) no_accounts joined
      ledger
      (record ledger { subscriptions = ensure_subscription_row times 1 ledger.subscriptions })
      ledger (owner_of 1 9) tt refl refl
