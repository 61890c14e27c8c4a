-- ===== src/Lifecycle/Tests.antt =====
-- One site, its scans, and the theorems about their life at concrete inputs.
use mathlib.Core.Option
use scan_pal.Common.{◌-◌, ◌≡◌, refl, find, arith, none, some, [], ◌∷◌, false}
use scan_pal.Billing.Ledger.{Clock, refund_credit, spend_credit, charge_row, is_active_status}
use scan_pal.Schedule.Due.{running, completed, canceled}
use scan_pal.Scan.Finding.{Category, Severity, FindingStatus, Finding, next_scan}
use scan_pal.Scan.Rounding.{exact}
use scan_pal.Lifecycle.Store.{
  ScanTrigger, has_id, v1, ScanRow, SiteRow, Db, ok, set_site_scan_state,
}
use scan_pal.Lifecycle.Create.{team_wide, CreateInput, create_manual_scan, cancel_scan, new_scan}
use scan_pal.Lifecycle.Finish.{FinishScanInput, finish_scan}
use scan_pal.Lifecycle.Dispatch.{
  crawl, write_progress_skeleton, advance_category_progress, load_dispatch, after_load,
}
use scan_pal.Lifecycle.Sound.{IsSound}
use scan_pal.Lifecycle.Steps.{Step, Reach, here, next, Reach-IsSound}
use scan_pal.Lifecycle.Canceled.{IsCanceledAt, Reach-canceled}
use scan_pal.Lifecycle.Torn.{status_of, load_dispatch-torn}
use scan_pal.Lifecycle.Credit.{used_of, cancel_scan-create_manual_scan}
use scan_pal.Lifecycle.Outcome.{IsReported, finish_scan-IsReported}

abbrev clock : Clock
clock = record { sql_now = 10; js_now = 11 }

abbrev site : SiteRow
site = record {
  id = 1;
  team_id = 7;
  workspace_id = none;
  scan_frequency = none;
  next_scan_at = none;
  last_scan_id = none;
  last_scan_status = none;
  last_scan_score = none;
  last_scanned_at = none;
}

abbrev empty : Db
empty = record {
  sites = site ∷ [];
  scans = [];
  ledger = record { subscriptions = λ t. none; transactions = [] };
  next_scan_id = 0;
}

abbrev input : CreateInput
input = record {
  team_id = 7;
  site_id = 1;
  active_tests = false;
  trigger = ScanTrigger.manual;
  scope = team_wide;
}

abbrev started : Db
started = (create_manual_scan clock input empty).0

abbrev stopped : Db
stopped = (cancel_scan clock 7 0 team_wide started).0

empty-IsSound : IsSound empty
empty-IsSound = record {
  keyed = λ id. omega arith;
  fresh = λ id h. refl;
  exclusive = λ u. omega arith;
}

-- A scan is started and handed out, and a second one of the site is refused.
started-crawl : load_dispatch 0 started ≡ crawl
unfolding load_dispatch create_manual_scan spend_credit charge_row is_active_status
    set_site_scan_state
started-crawl = refl

life :
    Reach exact empty
      (create_manual_scan clock input (write_progress_skeleton 0 (λ c. some 1) 12 started)).0
life =
    next
      (next (next here (Step.created clock input empty))
        (Step.dispatched 0 (λ c. some 1) 12 started started-crawl))
      (Step.created clock input (write_progress_skeleton 0 (λ c. some 1) 12 started))

Reach-IsSound_example :
    IsSound (create_manual_scan clock input (write_progress_skeleton 0 (λ c. some 1) 12 started)).0
Reach-IsSound_example = Reach-IsSound exact life empty-IsSound

abbrev finding : Finding
finding = record {
  id = "1";
  check_id = "https";
  category = Category.http;
  severity = Severity.high;
  title = "t";
  active = false;
  status = FindingStatus.open_;
  note = none;
  route_url = none;
  regressed = false;
  snooze_until = some next_scan;
}

abbrev report : FinishScanInput
report = record {
  scan_id = 0;
  site_id = 1;
  status = completed;
  score = some 80;
  findings = v1 (finding ∷ []);
  category_scores = none;
}

stopped-IsCanceledAt : IsCanceledAt 0 stopped
unfolding create_manual_scan cancel_scan spend_credit charge_row is_active_status
    set_site_scan_state
stopped-IsCanceledAt = refl

-- After the cancellation the workers and the aggregator still come by.
aftermath :
    Reach exact stopped
      (finish_scan 13 14 report (advance_category_progress exact 0 "https" 12 stopped)).0
aftermath =
    next (next here (Step.advanced 0 "https" 12 stopped))
      (Step.ended 13 14 report (advance_category_progress exact 0 "https" 12 stopped) tt)

Reach-canceled_example :
    IsCanceledAt 0
      (finish_scan 13 14 report (advance_category_progress exact 0 "https" 12 stopped)).0
Reach-canceled_example = Reach-canceled exact 0 aftermath stopped-IsCanceledAt

abbrev row : ScanRow
row = new_scan input 0

load_dispatch-torn_example :
    let torn = after_load (load_dispatch 0 started) 0 (λ c. some 1) 12 stopped in
    (status_of 0 stopped ≡ some canceled)
    × (status_of 0 torn ≡ some running)
    × (status_of 0 (finish_scan 13 14 report torn).0 ≡ some completed)
    × (torn.ledger ≡ (refund_credit 7 0 started.ledger).0)
load_dispatch-torn_example =
    load_dispatch-torn clock 7 team_wide (λ c. some 1) 12 13 14 report started stopped
      (record row { status = canceled }) started-crawl
      (unfold cancel_scan create_manual_scan spend_credit charge_row is_active_status
          set_site_scan_state in
        refl)

cancel_scan-create_manual_scan_example :
    ((cancel_scan clock 7 0 team_wide started).1 ≡ ok (record row { status = canceled }))
    × (used_of 7 stopped ≡ Option.map (λ n. n - 1) (used_of 7 started))
cancel_scan-create_manual_scan_example =
    cancel_scan-create_manual_scan clock clock input empty started row empty-IsSound
      (unfold create_manual_scan spend_credit charge_row is_active_status set_site_scan_state in
        refl)
      refl

finish_scan-IsReported_example :
    (stored : ScanRow) × ((finish_scan 13 14 report started).1 ≡ ok stored)
    × (find (has_id 0) (finish_scan 13 14 report started).0.scans ≡ some stored)
    × IsReported 14 1 report started.scans stored
finish_scan-IsReported_example =
    finish_scan-IsReported 13 14 report (finding ∷ []) started row refl refl
      (unfold create_manual_scan spend_credit charge_row is_active_status set_site_scan_state in
        refl)
      refl
