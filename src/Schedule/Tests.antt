-- ===== src/Schedule/Tests.antt =====
-- A round of the scheduler, and the theorems about it at concrete inputs.
use scan_pal.Common.{
  ℕ, ◌+◌, ◌*◌, ◌≤◌, ◌<◌, ◌%◌, ◌≡◌, refl, none, some, [], ◌∷◌, Bool, false, arith, length, count,
}
use scan_pal.Billing.Ledger.{Clock, is_active_status}
use scan_pal.Billing.Ledger.Copy.{spend_schedule_credit}
use scan_pal.Schedule.Next.{
  daily, day_ms, hour_ms, scheduled_hour_utc, next09_utc-bounds, next09_utc,
}
use scan_pal.Schedule.Due.{
  SiteRow, running, Db, due_sites, process_due_sites, process_site, process_sites,
}
use scan_pal.Schedule.Laws.{
  IsExclusive, IsPlanned, is_enqueue, is_credit_skip, process_due_sites-IsExclusive,
  process_due_sites-balanced, process_due_sites-IsPlanned,
}

abbrev clock : Clock
clock = record { sql_now = 100000000; js_now = 100000001 }

abbrev site_row : ℕ → SiteRow
site_row id = record {
  id = id;
  team_id = 7;
  url = "https://example.com";
  scan_frequency = some daily;
  next_scan_at = some (9 * hour_ms);
  last_scan_id = none;
  last_scan_status = none;
  last_scanned_at = none;
}

-- Site 1 is being scanned, site 2 is not.
abbrev db : Db
db = record {
  sites = site_row 1 ∷ site_row 2 ∷ [];
  scans = record { id = 50; site_id = 1; status = running; scheduled_for = none } ∷ [];
  ledger = record { subscriptions = λ t. none; transactions = [] };
  next_scan_id = 51;
}

abbrev no_locks : ℕ → Bool
no_locks id = false

started_only_the_idle_site : (process_due_sites clock no_locks db).1.started ≡ 2 ∷ []
unfolding process_due_sites due_sites process_site process_sites spend_schedule_credit
    is_active_status
started_only_the_idle_site = refl

next09_utc-bounds_example :
    (100 < next09_utc 100)
    × (next09_utc 100 ≤ 100 + day_ms)
    × (next09_utc 100 % day_ms ≡ scheduled_hour_utc * hour_ms)
next09_utc-bounds_example = next09_utc-bounds 100

db-IsExclusive : IsExclusive db.scans
db-IsExclusive site = ground arith

process_due_sites-IsExclusive_example : IsExclusive (process_due_sites clock no_locks db).0.scans
process_due_sites-IsExclusive_example =
    process_due_sites-IsExclusive clock no_locks db db-IsExclusive

process_due_sites-balanced_example :
    let (db', result, actions) = process_due_sites clock no_locks db in
    (length db'.scans ≡ length db.scans + length result.started)
    × (length db'.ledger.transactions ≡ length db.ledger.transactions + length result.started)
    × (count is_enqueue actions ≡ length result.started)
    × (count is_credit_skip actions ≡ length result.credit_skipped)
process_due_sites-balanced_example = process_due_sites-balanced clock no_locks db

process_due_sites-IsPlanned_example :
    IsPlanned 100000001
      (due_sites 100000000 no_locks db.sites)
      (process_due_sites clock no_locks db).0.sites
process_due_sites-IsPlanned_example = process_due_sites-IsPlanned clock no_locks db
