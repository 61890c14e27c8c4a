-- ===== src/Schedule/Next.antt =====
-- packages/shared/src/schedule.ts: the next run at 09:00 UTC. A `Date` is its number of
-- milliseconds since 1970; a UTC day is 86,400,000 of them, so that `Date.UTC` of a date's year,
-- month and day is the date rounded down to a day, and a day added by `setUTCDate` is that number.
use scan_pal.Common.{
  ℕ, ◌+◌, ◌*◌, ◌/◌, ◌%◌, ◌≤◌, ◌<◌, ◌≡◌, Option, none, some, arith, leb, if◌then◌else◌,
}

abbrev pub scheduled_hour_utc : ℕ
scheduled_hour_utc = 9

abbrev pub hour_ms : ℕ
hour_ms = 60 * 60 * 1000

abbrev pub day_ms : ℕ
day_ms = 24 * 60 * 60 * 1000

unfoldable pub next09_utc : ℕ → ℕ
next09_utc from =
    let next = from / day_ms * day_ms + scheduled_hour_utc * hour_ms in
    if leb next from then next + day_ms else next

pub data Frequency : Type 0 where
  daily weekly : Frequency

unfoldable pub delta_ms : Frequency → ℕ
delta_ms daily = 24 * 60 * 60 * 1000
delta_ms weekly = 7 * 24 * 60 * 60 * 1000

unfoldable pub compute_next_scan_at : Frequency → Option ℕ → ℕ → ℕ
unfolding next09_utc delta_ms
compute_next_scan_at frequency none now = next09_utc now
compute_next_scan_at frequency (some current) now =
    let shifted = current + delta_ms frequency in
    if leb shifted now then next09_utc now else shifted

-- The first 09:00 UTC after a moment: it is later, by a day at most, and it is at nine.
pub next09_utc-bounds :
    (from : ℕ)
    → (from < next09_utc from)
      × (next09_utc from ≤ from + day_ms)
      × (next09_utc from % day_ms ≡ scheduled_hour_utc * hour_ms)
unfolding next09_utc
next09_utc-bounds from = ground arith

abbrev pub IsAtNine : Option ℕ → Type 0
IsAtNine none = Unit
IsAtNine (some t) = t % day_ms ≡ scheduled_hour_utc * hour_ms

keeps-nine :
    (f : Frequency) (c : ℕ)
    → c % day_ms ≡ scheduled_hour_utc * hour_ms
    → (c + delta_ms f) % day_ms ≡ scheduled_hour_utc * hour_ms
unfolding delta_ms
keeps-nine daily c h = omega arith
keeps-nine weekly c h = omega arith

day-le-delta : (f : Frequency) → day_ms ≤ delta_ms f
unfolding delta_ms
day-le-delta daily = omega arith
day-le-delta weekly = omega arith

-- For a site without a plan or with one at 09:00 UTC, the next run lies in the future, however
-- late the scheduler is; it is at 09:00 UTC, and after a plan that is not later than now it is at
-- most one interval from now.
pub compute_next_scan_at-bounds :
    (f : Frequency) (current : Option ℕ) (now : ℕ)
    → IsAtNine current
    → (now < compute_next_scan_at f current now)
      × (compute_next_scan_at f current now % day_ms ≡ scheduled_hour_utc * hour_ms)
      × ((c : ℕ)
          → current ≡ some c
          → c ≤ now
          → compute_next_scan_at f current now ≤ now + delta_ms f)
unfolding compute_next_scan_at
compute_next_scan_at-bounds f none now h =
    ((next09_utc-bounds now).0, (next09_utc-bounds now).2, λ c e l. cc)
compute_next_scan_at-bounds f (some c) now h = (
  ground (arith, next09_utc-bounds now),
  ground (arith, next09_utc-bounds now, keeps-nine f c h),
  λ d e l. ground (arith, next09_utc-bounds now, day-le-delta f),
)

pub compute_next_scan_at-future :
    (f : Frequency) (current : Option ℕ) (now : ℕ) → now < compute_next_scan_at f current now
unfolding compute_next_scan_at
compute_next_scan_at-future f none now = (next09_utc-bounds now).0
compute_next_scan_at-future f (some c) now = ground (arith, next09_utc-bounds now)
