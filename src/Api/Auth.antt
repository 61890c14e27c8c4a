-- ===== src/Api/Auth.antt =====
-- apps/web/lib/api-auth.ts: `requireTeam` with its ways to authenticate, a signed request, a key and
-- a session. A request is given by what the code reads of it: the prefix that `parseHmacAuth` finds,
-- the key that the pattern of `Bearer` finds, the two headers (`none` if empty), and whether
-- `verifyHmacSignature` accepts the signature under the secret derived from a `key_hash` (`none`: the
-- secret cannot be derived, an exception). The session gives the user that `getSessionUser` answers,
-- whose team `getOrCreateUserTeam` finds or makes. The usage is recorded at once, and without a
-- failure.
use scan_pal.Common.{
  ℕ, Option, none, some, List, [], ◌∷◌, Bool, true, false, String, ltb, if◌then◌else◌,
}
use scan_pal.Billing.Ledger.{Ledger}
use scan_pal.Billing.Entitlement.{get_plan_for_team}
use scan_pal.Api.Redis.{RateKey, Redis}
use scan_pal.Api.RateLimit.{RateLimitResult, limited, rate_limit_window_seconds, check_rate_limit}
use scan_pal.Api.Accounts.{AuthUser, TeamMembership, Accounts, get_or_create_user_team}
use scan_pal.Api.Keys.{ApiKeyRow, Keys, find_api_key, find_api_key_by_prefix, record_api_key_usage}
use scan_pal.Api.Hmac.{is_timestamp_valid, hmac_timestamp_tolerance_seconds}

pub data Auth : Type 0 where
  session : (user_id : ℕ) → (role : String) → (workspace_id : Option ℕ) → Auth
  key : (key_id : ℕ) → Auth

pub record TeamContext : Type 0 where
  pub team_id : ℕ
  pub auth : Auth

pub data RequireTeamResult : Type 0 where
  ok : TeamContext → RequireTeamResult
  unauthorized : RequireTeamResult
  too_many : (retry_after : ℕ) → RequireTeamResult
  threw : RequireTeamResult

pub record Request : Type 0 where
  pub hmac_prefix : Option String
  pub bearer_key : Option String
  pub signature : Option String
  pub timestamp : Option String
  pub session_user : Option AuthUser
  pub verify : (key_hash timestamp signature : String) → Option Bool

-- The clocks of the process and of the database, and the database's day.
pub record Clock : Type 0 where
  pub now : ℕ
  pub sql_now : ℕ
  pub day : ℕ

-- The tables and the counters in Redis that a request reads and changes.
pub record ApiState (S : Type 0) : Type 0 where
  pub keys : Keys
  pub accounts : Accounts
  pub ledger : Ledger
  pub limits : S

abbrev pub is_past : ℕ → Option ℕ → Bool
is_past now none = false
is_past now (some expires_at) = ltb expires_at now

-- The two guards on a row: revoked, and expired.
unfoldable pub is_refused : ℕ → ApiKeyRow → Bool
is_refused now row = elim row.revoked_at [ some _ ↦ true | none ↦ is_past now row.expires_at ]

module _ {S : Type 0} (redis : Redis S) (hash_api_key : String → String) where
  -- What follows the answers of the two limits, the key's first.
  abbrev pub after_limits :
      Clock
      → ApiKeyRow
      → RateLimitResult
      → RateLimitResult
      → ApiState S
      → RequireTeamResult × ApiState S
  after_limits clock row (limited retry_after) per_team s = (too_many retry_after, s)
  after_limits clock row RateLimitResult.ok (limited retry_after) s = (too_many retry_after, s)
  after_limits clock row RateLimitResult.ok RateLimitResult.ok s = (
    ok (record { team_id = row.team_id; auth = Auth.key row.id }),
    record s { keys = record_api_key_usage clock.sql_now clock.day row.id s.keys },
  )

  -- The end that a signed request and a key share: both limits are counted.
  unfoldable pub admit : Clock → ApiKeyRow → ApiState S → RequireTeamResult × ApiState S
  admit clock row s =
      let limit = (get_plan_for_team row.team_id s.ledger).api_rate_per_minute in
      let per_key =
        check_rate_limit redis clock.now (RateKey.key row.id) limit rate_limit_window_seconds
          s.limits in
      let per_team =
        check_rate_limit redis clock.now (RateKey.team row.team_id) limit rate_limit_window_seconds
          per_key.1 in
      after_limits clock row per_key.0 per_team.0 (record s { limits = per_team.1 })

  abbrev pub after_signature :
      Clock → ApiKeyRow → Option Bool → ApiState S → RequireTeamResult × ApiState S
  after_signature clock row none s = (threw, s)
  after_signature clock row (some false) s = (unauthorized, s)
  after_signature clock row (some true) s = admit clock row s

  abbrev pub signed :
      Clock
      → Request
      → ApiKeyRow
      → Option String
      → Option String
      → ApiState S
      → RequireTeamResult × ApiState S
  signed clock request row none timestamp s = (unauthorized, s)
  signed clock request row (some signature) none s = (unauthorized, s)
  signed clock request row (some signature) (some timestamp) s =
      if is_timestamp_valid timestamp clock.now hmac_timestamp_tolerance_seconds
      then after_signature clock row (request.verify row.key_hash timestamp signature) s
      else (unauthorized, s)

  unfoldable pub require_hmac_api_key :
      Clock → Request → (key_prefix : String) → ApiState S → RequireTeamResult × ApiState S
  require_hmac_api_key clock request key_prefix s =
      elim (find_api_key_by_prefix key_prefix s.keys) [
        | none ↦ (unauthorized, s)
        | some row ↦
            if is_refused clock.now row
            then (unauthorized, s)
            else signed clock request row request.signature request.timestamp s
      ]

  unfoldable pub require_api_key : Clock → String → ApiState S → RequireTeamResult × ApiState S
  require_api_key clock full_key s = elim (find_api_key (hash_api_key full_key) s.keys) [
    | none ↦ (unauthorized, s)
    | some row ↦ if is_refused clock.now row then (unauthorized, s) else admit clock row s
  ]

  abbrev pub session_answer :
      AuthUser
      → Option (TeamMembership × (Accounts × Ledger))
      → ApiState S
      → RequireTeamResult × ApiState S
  session_answer user none s = (threw, s)
  session_answer user (some (m, (accounts, ledger))) s = (
    ok (record { team_id = m.team_id; auth = session user.id m.role m.workspace_id }),
    record s { accounts = accounts; ledger = ledger },
  )

  abbrev pub require_session : Clock → Option AuthUser → ApiState S → RequireTeamResult × ApiState S
  require_session clock none s = (unauthorized, s)
  require_session clock (some user) s =
      session_answer user
        (get_or_create_user_team (record { sql_now = clock.sql_now; js_now = clock.now }) user
          s.accounts s.ledger)
        s

  unfoldable pub require_team : Clock → Request → ApiState S → RequireTeamResult × ApiState S
  unfolding require_hmac_api_key require_api_key
  require_team clock request s = elim request.hmac_prefix [
    | some key_prefix ↦ require_hmac_api_key clock request key_prefix s
    | none ↦ elim request.bearer_key [
      | some full_key ↦ require_api_key clock full_key s
      | none ↦ require_session clock request.session_user s
    ]
  ]

  -- The requests one after the other, each with its clock.
  unfoldable pub require_all : List (Clock × Request) → ApiState S → List RequireTeamResult
  require_all [] s = []
  require_all (r ∷ requests) s =
      let answer = require_team r.0 r.1 s in
      let rest = require_all requests answer.1 in answer.0 ∷ rest
