-- ===== src/Api/Revoked.antt =====
-- A key that its team has revoked lets no later request in.
use scan_pal.Common.{
  ℕ, ◌≡◌, refl, sym, ◌∙◌, arith, some, List, [], ◌∷◌, Bool, true, false, ◌&&◌, String, ◌==◌, exists,
  update, exists-update_same, Bool-cases, inl, inr,
}
use scan_pal.Api.Redis.{Redis}
use scan_pal.Api.Keys.{ApiKeyRow, Keys, is_usable, revoke_api_key, record_api_key_usage}
use scan_pal.Api.Auth.{
  Auth, session, key, RequireTeamResult, ok, unauthorized, too_many, threw, Request, Clock,
  ApiState, require_team, require_all,
}
use scan_pal.Api.Access.{lets_in, IsAnswer, IsContext, require_team-IsAnswer}

abbrev pub is_auth_of : ℕ → Auth → Bool
is_auth_of key_id (key id) = id == key_id
is_auth_of key_id (session _ _ _) = false

-- The answer lets a request in for this team by this key.
abbrev pub is_key_of : (team_id key_id : ℕ) → RequireTeamResult → Bool
is_key_of team_id key_id (ok ctx) = ctx.team_id == team_id && is_auth_of key_id ctx.auth
is_key_of team_id key_id _ = false

has_usable : (team_id key_id : ℕ) → Keys → Bool
has_usable team_id key_id keys = exists (is_usable team_id key_id) keys.api_keys

revoked_none :
    (now team_id key_id : ℕ) (rows : List ApiKeyRow)
    → exists
        (is_usable team_id key_id)
        (update (is_usable team_id key_id) (λ row. record row { revoked_at = some now }) rows)
      ≡ false
revoked_none now team_id key_id [] = refl
revoked_none now team_id key_id (row ∷ rows) = ground (arith, revoked_none now team_id key_id rows)

revoke_api_key-has_usable :
    (now team_id key_id : ℕ) (keys : Keys)
    → has_usable team_id key_id (revoke_api_key now team_id key_id keys).0 ≡ false
unfolding has_usable revoke_api_key
revoke_api_key-has_usable now team_id key_id keys = revoked_none now team_id key_id keys.api_keys

record_api_key_usage-has_usable :
    (now day used team_id key_id : ℕ) (keys : Keys)
    → has_usable team_id key_id (record_api_key_usage now day used keys)
      ≡ has_usable team_id key_id keys
unfolding has_usable record_api_key_usage
record_api_key_usage-has_usable now day used team_id key_id keys =
    exists-update_same (is_usable team_id key_id) _ _ keys.api_keys (λ row. refl)

open_usable :
    (now team_id key_id : ℕ) (rows : List ApiKeyRow)
    → exists (lets_in now team_id key_id) rows ≡ true
    → exists (is_usable team_id key_id) rows ≡ true
open_usable now team_id key_id [] h = h
open_usable now team_id key_id (row ∷ rows) h = ground (arith, open_usable now team_id key_id rows)

other_key :
    (now team_id key_id team id : ℕ) (rows : List ApiKeyRow)
    → exists (lets_in now team id) rows ≡ true
    → exists (is_usable team_id key_id) rows ≡ false
    → (team == team_id && id == key_id) ≡ true
    → (team == team_id && id == key_id) ≡ false
other_key now team_id key_id team id rows found h match =
    let same_team : team ≡ team_id = ground (arith, match) in
    let same_id : id ≡ key_id = ground (arith, match) in
    absurd (
      ground
        (arith, open_usable now team_id key_id rows (rw (sym same_team, sym same_id) found), h))

module _ {S : Type 0} where
  context_revoked :
      (clock : Clock) (team_id key_id team : ℕ) (auth : Auth) (s t : ApiState S)
      → has_usable team_id key_id s.keys ≡ false
      → IsContext clock team auth s t
      → ((team == team_id && is_auth_of key_id auth) ≡ false)
        × (has_usable team_id key_id t.keys ≡ false)
  unfolding IsContext has_usable
  context_revoked clock team_id key_id team (session _ _ _) s t h (same, _, _) =
      (ground arith, rw same h)
  context_revoked clock team_id key_id team (key id) s t h (found, used, _, _) =
      let locked : (team == team_id && id == key_id) ≡ false =
        elim (Bool-cases (team == team_id && id == key_id)) [
          | inr no_match ↦ no_match
          | inl match ↦ other_key clock.now team_id key_id team id s.keys.api_keys found h match
        ] in
      (
        locked,
        rw used
            (record_api_key_usage-has_usable clock.sql_now clock.day id team_id key_id s.keys ∙ h),
      )

  answer_revoked :
      (clock : Clock) (team_id key_id : ℕ) (answer : RequireTeamResult) (s t : ApiState S)
      → has_usable team_id key_id s.keys ≡ false
      → IsAnswer clock answer s t
      → (is_key_of team_id key_id answer ≡ false) × (has_usable team_id key_id t.keys ≡ false)
  unfolding IsAnswer
  answer_revoked clock team_id key_id (ok ctx) s t h e =
      context_revoked clock team_id key_id ctx.team_id ctx.auth s t h e
  answer_revoked clock team_id key_id unauthorized s t h e = (refl, rw e h)
  answer_revoked clock team_id key_id (too_many _) s t h (e, _, _) = (refl, rw e h)
  answer_revoked clock team_id key_id threw s t h e = (refl, rw e h)

  module _ (redis : Redis S) (hash_api_key : String → String) where
    all_revoked :
        (team_id key_id : ℕ) (requests : List (Clock × Request)) (s : ApiState S)
        → has_usable team_id key_id s.keys ≡ false
        → exists (is_key_of team_id key_id) (require_all redis hash_api_key requests s) ≡ false
    unfolding require_all
    all_revoked team_id key_id [] s h = refl
    all_revoked team_id key_id (r ∷ requests) s h =
        let first =
          answer_revoked r.0 team_id key_id _ s _ h
            (require_team-IsAnswer redis hash_api_key r.0 r.1 s) in
        ground (
          arith,
          first.0,
          all_revoked team_id key_id requests (require_team redis hash_api_key r.0 r.1 s).1 first.1,
        )

    -- After a team has revoked a key, no sequence of requests, with whatever headers and clocks,
    -- is let in for that team by that key.
    pub revoke_api_key-require_all :
        (now team_id key_id : ℕ) (requests : List (Clock × Request)) (s : ApiState S)
        → exists (is_key_of team_id key_id) (
            require_all redis hash_api_key requests
              (record s { keys = (revoke_api_key now team_id key_id s.keys).0 }))
          ≡ false
    revoke_api_key-require_all now team_id key_id requests s =
        all_revoked team_id key_id requests _ (revoke_api_key-has_usable now team_id key_id s.keys)
