-- ===== src/Api/RateLimit.antt =====
-- apps/web/lib/rate-limit.ts: `checkRateLimit`, a window in Redis of a fixed length. Its copy is
-- apps/worker/src/rate-limit.ts. The commands of one call are sent at one time `now`.
use scan_pal.Common.{
  ℕ, ◌==◌, Option, none, some, List, [], ◌∷◌, Bool, true, false, ltb, max, if◌then◌else◌,
}
use scan_pal.Api.Redis.{RateKey, Redis}

abbrev pub rate_limit_window_seconds : ℕ
rate_limit_window_seconds = 60

pub data RateLimitResult : Type 0 where
  ok : RateLimitResult
  limited : (retry_after_seconds : ℕ) → RateLimitResult

abbrev pub is_ok : RateLimitResult → Bool
is_ok ok = true
is_ok (limited _) = false

module _ {S : Type 0} (redis : Redis S) where
  -- The first command and the one that depends on its answer.
  unfoldable pub count_call : ℕ → RateKey → ℕ → S → ℕ × S
  count_call now k window_seconds s =
      let counted = redis.incr now k s in
      (counted.0, if counted.0 == 1 then redis.expire now k window_seconds counted.1 else counted.1)

  abbrev pub retry_after : Option ℕ → ℕ
  retry_after none = 1
  retry_after (some ttl) = max ttl 1

  unfoldable pub check_rate_limit : ℕ → RateKey → ℕ → ℕ → S → RateLimitResult × S
  unfolding count_call
  check_rate_limit now k limit window_seconds s =
      let counted = count_call now k window_seconds s in
      (
        if ltb limit counted.0 then limited (retry_after (redis.ttl now k counted.1)) else ok,
        counted.1,
      )

  -- The calls for one key, at these times.
  unfoldable pub check_all : List ℕ → RateKey → ℕ → ℕ → S → List RateLimitResult × S
  check_all [] k limit window_seconds s = ([], s)
  check_all (now ∷ times) k limit window_seconds s =
      let first = check_rate_limit now k limit window_seconds s in
      let rest = check_all times k limit window_seconds first.1 in (first.0 ∷ rest.0, rest.1)
