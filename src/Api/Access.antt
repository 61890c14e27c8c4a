-- ===== src/Api/Access.antt =====
-- What each answer of `requireTeam` says of the tables and the counters.
use scan_pal.Common.{
  ℕ, ◌≡◌, refl, sym, arith, Option, none, some, Bool, true, false, ◌&&◌, String, str_eq, ◌==◌, leb,
  if◌then◌else◌, exists, find, find-exists, Bool-cases, Option-cases, inl, inr,
}
use mathlib.Core.Path.{subst}
use scan_pal.Billing.Ledger.{Ledger}
use scan_pal.Api.Accounts.{
  AuthUser, TeamMembership, Accounts, IsSeated, is_seat, get_or_create_user_team-IsSeated,
}
use scan_pal.Api.Redis.{Redis}
use scan_pal.Api.RateLimit.{RateLimitResult, limited}
use scan_pal.Api.Keys.{
  is_none, ApiKeyRow, find_api_key, find_api_key_by_prefix, record_api_key_usage,
}
use scan_pal.Api.Hmac.{is_timestamp_valid, hmac_timestamp_tolerance_seconds}
use scan_pal.Api.Auth.{
  Auth, session, key, RequireTeamResult, ok, unauthorized, too_many, threw, Request, Clock,
  ApiState, is_refused, admit, require_hmac_api_key, require_api_key, require_team, after_limits,
  signed, after_signature, session_answer, require_session, is_past,
}

-- The time is not past the end, where there is one.
abbrev pub is_in_time : ℕ → Option ℕ → Bool
is_in_time now none = true
is_in_time now (some expires_at) = leb now expires_at

-- A row of this key and team that is neither revoked nor expired.
abbrev pub lets_in : ℕ → (team_id key_id : ℕ) → ApiKeyRow → Bool
lets_in now team_id key_id row =
    row.id == key_id
    && (row.team_id == team_id && (is_none row.revoked_at && is_in_time now row.expires_at))

-- What the guards let through is neither revoked nor expired.
let_in-is_in_time :
    (now : ℕ) (row : ApiKeyRow)
    → is_refused now row ≡ false
    → (is_none row.revoked_at && is_in_time now row.expires_at) ≡ true
unfolding is_refused
let_in-is_in_time now row h = by_date row.expires_at row.revoked_at h
  where
    by_date :
        (expires_at revoked_at : Option ℕ)
        → elim revoked_at [ some _ ↦ true | none ↦ is_past now expires_at ] ≡ false
        → (is_none revoked_at && is_in_time now expires_at) ≡ true
    by_date none none e = refl
    by_date (some t) none e = ground (arith, e)
    by_date expires_at (some _) e = sym e

module _ {S : Type 0} where
  unfoldable pub IsContext : Clock → (team_id : ℕ) → Auth → ApiState S → ApiState S → Type 0
  IsContext clock team_id (session user_id role _) s t =
      (t.keys ≡ s.keys)
      × (t.limits ≡ s.limits)
      × (exists (is_seat team_id user_id role) t.accounts.memberships ≡ true)
  IsContext clock team_id (key key_id) s t =
      (exists (lets_in clock.now team_id key_id) s.keys.api_keys ≡ true)
      × (t.keys ≡ record_api_key_usage clock.sql_now clock.day key_id s.keys)
      × (t.accounts ≡ s.accounts)
      × (t.ledger ≡ s.ledger)

  -- What an answer promises of the state before and after it.
  unfoldable pub IsAnswer : Clock → RequireTeamResult → ApiState S → ApiState S → Type 0
  unfolding IsContext
  IsAnswer clock unauthorized s t = t ≡ s
  IsAnswer clock threw s t = t ≡ s
  IsAnswer clock (too_many _) s t =
      (t.keys ≡ s.keys) × (t.accounts ≡ s.accounts) × (t.ledger ≡ s.ledger)
  IsAnswer clock (ok ctx) s t = IsContext clock ctx.team_id ctx.auth s t

  abbrev Answers : Clock → ApiState S → RequireTeamResult × ApiState S → Type 0
  Answers clock s answer = IsAnswer clock answer.0 s answer.1

  same :
      (clock : Clock) (s : ApiState S) {x y : RequireTeamResult × ApiState S}
      → x ≡ y
      → Answers clock s y
      → Answers clock s x
  same clock s e h = subst (λ z. Answers clock s z) (sym e) h

  refl_answer : (clock : Clock) (s : ApiState S) → Answers clock s (unauthorized, s)
  unfolding IsAnswer
  refl_answer clock s = refl

  module _ (redis : Redis S) (hash_api_key : String → String) where
    open_row :
        (now : ℕ) (p : ApiKeyRow → Bool) (s : ApiState S) (row : ApiKeyRow)
        → find p s.keys.api_keys ≡ some row
        → is_refused now row ≡ false
        → exists (lets_in now row.team_id row.id) s.keys.api_keys ≡ true
    open_row now p s row e h =
        find-exists p (lets_in now row.team_id row.id) s.keys.api_keys row e
          (ground (arith, let_in-is_in_time now row h))

    after_limits-answer :
        (clock : Clock) (row : ApiKeyRow) (per_key per_team : RateLimitResult) (s t : ApiState S)
        → t.keys ≡ s.keys
        → t.accounts ≡ s.accounts
        → t.ledger ≡ s.ledger
        → exists (lets_in clock.now row.team_id row.id) s.keys.api_keys ≡ true
        → Answers clock s (after_limits redis hash_api_key clock row per_key per_team t)
    unfolding IsAnswer IsContext
    after_limits-answer clock row (limited n) per_team s t e a l h = (e, a, l)
    after_limits-answer clock row RateLimitResult.ok (limited n) s t e a l h = (e, a, l)
    after_limits-answer clock row RateLimitResult.ok RateLimitResult.ok s t e a l h =
        (h, rw e refl, a, l)

    admit-answer :
        (clock : Clock) (p : ApiKeyRow → Bool) (row : ApiKeyRow) (s : ApiState S)
        → find p s.keys.api_keys ≡ some row
        → is_refused clock.now row ≡ false
        → Answers clock s (admit redis hash_api_key clock row s)
    unfolding admit
    admit-answer clock p row s e h =
        after_limits-answer clock row _ _ s _ refl refl refl (open_row clock.now p s row e h)

    after_signature-answer :
        (clock : Clock) (p : ApiKeyRow → Bool) (row : ApiKeyRow) (answer : Option Bool)
        (s : ApiState S)
        → find p s.keys.api_keys ≡ some row
        → is_refused clock.now row ≡ false
        → Answers clock s (after_signature redis hash_api_key clock row answer s)
    unfolding IsAnswer
    after_signature-answer clock p row none s e h = refl
    after_signature-answer clock p row (some false) s e h = refl
    after_signature-answer clock p row (some true) s e h = admit-answer clock p row s e h

    timely-answer :
        (clock : Clock) (request : Request) (p : ApiKeyRow → Bool) (row : ApiKeyRow)
        (signature timestamp : String) (is_timely : Bool) (s : ApiState S)
        → find p s.keys.api_keys ≡ some row
        → is_refused clock.now row ≡ false
        → Answers clock s (
            if is_timely
            then after_signature redis hash_api_key clock row
                (request.verify row.key_hash timestamp signature)
                s
            else (unauthorized, s))
    unfolding IsAnswer
    timely-answer clock request p row signature timestamp false s e h = refl
    timely-answer clock request p row signature timestamp true s e h =
        after_signature-answer clock p row (request.verify row.key_hash timestamp signature) s e h

    signed-answer :
        (clock : Clock) (request : Request) (p : ApiKeyRow → Bool) (row : ApiKeyRow)
        (signature timestamp : Option String) (s : ApiState S)
        → find p s.keys.api_keys ≡ some row
        → is_refused clock.now row ≡ false
        → Answers clock s (signed redis hash_api_key clock request row signature timestamp s)
    unfolding IsAnswer
    signed-answer clock request p row none timestamp s e h = refl
    signed-answer clock request p row (some x) none s e h = refl
    signed-answer clock request p row (some x) (some t) s e h =
        timely-answer clock request p row x t
          (is_timestamp_valid t clock.now hmac_timestamp_tolerance_seconds) s e h

    -- The lookup and the two guards on its row, before what comes `after`.
    guarded :
        (clock : Clock) (p : ApiKeyRow → Bool) (s : ApiState S)
        (after : ApiKeyRow → RequireTeamResult × ApiState S)
        → ((row : ApiKeyRow)
            → find p s.keys.api_keys ≡ some row
            → is_refused clock.now row ≡ false
            → Answers clock s (after row))
        → Answers clock s (elim (find p s.keys.api_keys) [
          | none ↦ (unauthorized, s)
          | some row ↦ if is_refused clock.now row then (unauthorized, s) else after row
        ])
    guarded clock p s after h = elim (Option-cases (find p s.keys.api_keys)) [
      | inl missing ↦ same clock s (rw missing refl) (refl_answer clock s)
      | inr (row, found) ↦ elim (Bool-cases (is_refused clock.now row)) [
        | inl refused ↦ same clock s (rw (found, refused) refl) (refl_answer clock s)
        | inr let_in ↦ same clock s (rw (found, let_in) refl) (h row found let_in)
      ]
    ]

    session-answer :
        (clock : Clock) (user : AuthUser) (o : Option (TeamMembership × (Accounts × Ledger)))
        (s : ApiState S)
        → IsSeated user.id o
        → Answers clock s (session_answer redis hash_api_key user o s)
    unfolding IsAnswer IsContext
    session-answer clock user none s h = refl
    session-answer clock user (some (m, (accounts, ledger))) s h = (refl, refl, h)

    by_header :
        (clock : Clock) (request : Request) (s : ApiState S) (prefix full_key : Option String)
        (user : Option AuthUser)
        → Answers clock s (elim prefix [
          | some key_prefix ↦ require_hmac_api_key redis hash_api_key clock request key_prefix s
          | none ↦ elim full_key [
            | some k ↦ require_api_key redis hash_api_key clock k s
            | none ↦ require_session redis hash_api_key clock user s
          ]
        ])
    unfolding require_hmac_api_key require_api_key find_api_key find_api_key_by_prefix IsAnswer
        IsContext
    by_header clock request s (some key_prefix) full_key user =
        guarded clock (λ row. str_eq row.prefix key_prefix) s _
          (λ row found let_in.
            signed-answer clock request _ row request.signature request.timestamp s found let_in)
    by_header clock request s none (some k) user =
        guarded clock (λ row. str_eq row.key_hash (hash_api_key k)) s _
          (λ row found let_in. admit-answer clock _ row s found let_in)
    by_header clock request s none none none = refl
    by_header clock request s none none (some user) =
        session-answer clock user _ s (get_or_create_user_team-IsSeated _ user s.accounts s.ledger)

    -- A request that is unauthorized or throws changes nothing, and one that is over a limit
    -- changes only the counters. One let in by its session leaves keys and counters as they are,
    -- and the user then has a membership of the team with the role that the answer names. One let
    -- in by a key has a row there of that key and team which is neither revoked nor expired, and
    -- beside the counters only the use of that key is recorded.
    pub require_team-IsAnswer :
        (clock : Clock) (request : Request) (s : ApiState S)
        → IsAnswer clock
            (require_team redis hash_api_key clock request s).0
            s
            (require_team redis hash_api_key clock request s).1
    unfolding require_team
    require_team-IsAnswer clock request s =
        by_header clock request s request.hmac_prefix request.bearer_key request.session_user
