-- ===== src/Api/Redis.antt =====
-- What apps/web/lib/rate-limit.ts uses of Redis: three commands on a store, and their documented
-- effect on a key's value and on its time of expiry. Times are milliseconds.
use scan_pal.Common.{ℕ, suc, ◌+◌, ◌*◌, ◌≡◌, ◌≢◌, Option, none, some, Bool, true, ltb, if◌then◌else◌}

-- The keys `rl:key:<id>` and `rl:team:<id>`.
pub data RateKey : Type 0 where
  key : (id : ℕ) → RateKey
  team : (id : ℕ) → RateKey

-- `ttl` gives `none` for a negative answer: no such key, or no expiry.
pub record Redis (S : Type 0) : Type 0 where
  pub incr : (now : ℕ) → RateKey → S → ℕ × S
  pub expire : (now : ℕ) → RateKey → (seconds : ℕ) → S → S
  pub ttl : (now : ℕ) → RateKey → S → Option ℕ

-- A key's value, and the time from which it is gone.
pub record Entry : Type 0 where
  pub value : ℕ
  pub deadline : Option ℕ

abbrev pub is_live : ℕ → (deadline : Option ℕ) → Bool
is_live now none = true
is_live now (some d) = ltb now d

-- The value that `INCR` finds: 0 for a key that is not there or is gone.
abbrev pub value_at : ℕ → Option Entry → ℕ
value_at now none = 0
value_at now (some e) = if is_live now e.deadline then e.value else 0

-- What `INCR` leaves.
abbrev pub bumped : ℕ → Option Entry → Entry
bumped now none = record { value = 1; deadline = none }
bumped now (some e) =
    if is_live now e.deadline
    then record { value = suc e.value; deadline = e.deadline }
    else record { value = 1; deadline = none }

pub record RedisLaws {S : Type 0} (r : Redis S) : Type 0 where
  pub entry : S → RateKey → Option Entry
  pub incr-value :
      (now : ℕ) (k : RateKey) (s : S) → (r.incr now k s).0 ≡ suc (value_at now (entry s k))
  pub incr-entry :
      (now : ℕ) (k : RateKey) (s : S) → entry (r.incr now k s).1 k ≡ some (bumped now (entry s k))
  pub incr-others :
      (now : ℕ) (k j : RateKey) (s : S) → j ≢ k → entry (r.incr now k s).1 j ≡ entry s j
  pub expire-entry :
      (now : ℕ) (k : RateKey) (seconds : ℕ) (s : S) (e : Entry)
      → entry s k ≡ some e
      → is_live now e.deadline ≡ true
      → entry (r.expire now k seconds s) k
        ≡ some (record { value = e.value; deadline = some (now + 1000 * seconds) })
  pub expire-others :
      (now : ℕ) (k j : RateKey) (seconds : ℕ) (s : S)
      → j ≢ k
      → entry (r.expire now k seconds s) j ≡ entry s j
