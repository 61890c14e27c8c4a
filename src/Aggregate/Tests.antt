-- ===== src/Aggregate/Tests.antt =====
-- A scan with two checks, and the theorems about its aggregation at it.
use scan_pal.Common.{
  ℕ, ◌≡◌, ◌==◌, refl, Option, none, some, List, [], ◌∷◌, String, false, if◌then◌else◌, select, find,
}
use scan_pal.Schedule.Due.{running, completed, canceled}
use scan_pal.Scan.Finding.{Finding, seo, Severity, critical, low, open_}
use scan_pal.Scan.Rounding.{exact}
use scan_pal.Scan.Diff.{severity_rank}
use scan_pal.Scan.Score.{overall_score_from_findings}
use scan_pal.Lifecycle.Store.{ScanTrigger, v1, other, ScanRow, SiteRow, ok, has_id}
use scan_pal.Aggregate.Checks.{
  ScanCheckRow, Checks, CheckKey, several, valid, invalid, upsert_rows, upsert_checks,
}
use scan_pal.Aggregate.Bulk.{upsert_checks-upsert_rows}
use scan_pal.Aggregate.Build.{
  build_findings_from_checks, listed, IsSorted, has_rank, build_findings_from_checks-IsSorted,
}
use scan_pal.Aggregate.Crux.{LabCwv, CruxData}
use scan_pal.Aggregate.Process.{
  Message, load_scan_site, previous_score, Tables, derive_crux, aggregate_processor,
}
use scan_pal.Aggregate.Alerts.{IsReport}
use scan_pal.Aggregate.Report.{aggregate_processor-IsReport}

abbrev finding : String → Severity → Finding
finding id severity = record {
  id = id;
  check_id = "c";
  category = seo;
  severity = severity;
  title = id;
  active = false;
  status = open_;
  note = none;
  route_url = none;
  regressed = false;
  snooze_until = none;
}

abbrev row : Option String → Finding → ScanCheckRow
row route f = record {
  scan_id = 3;
  check_id = "c";
  category = seo;
  status = "warn";
  severity = some f.severity;
  finding = several (valid f ∷ invalid ∷ []);
  route_url = route;
}

abbrev rows : List ScanCheckRow
rows =
    row none (finding "1" low)
    ∷ row (some "/a") (finding "2" critical)
    ∷ row none (finding "3" low)
    ∷ []

sorted :
    build_findings_from_checks rows ≡ finding "2" critical ∷ finding "1" low ∷ finding "3" low ∷ []
unfolding build_findings_from_checks severity_rank
sorted = refl

build_findings_from_checks-IsSorted_example :
    IsSorted (build_findings_from_checks rows)
    × ((rank : ℕ)
        → select (has_rank rank) (build_findings_from_checks rows)
          ≡ select (has_rank rank) (listed rows))
build_findings_from_checks-IsSorted_example = build_findings_from_checks-IsSorted rows

abbrev no_checks : Checks
no_checks k = none

upsert_checks-upsert_rows_example :
    (stored : Checks) × (upsert_checks rows no_checks ≡ some stored)
    × ((k : CheckKey) → stored k ≡ upsert_rows rows no_checks k)
upsert_checks-upsert_rows_example =
    upsert_checks-upsert_rows (λ c. seo) rows no_checks (refl, (refl, (refl, tt)))

abbrev lab : LabCwv
lab = record { lcp_ms = some 4000; cls = none; inp_ms = some 100 }

abbrev field : CruxData
field = record { lcp = some 2000; inp = some 90; cls = some 10 }

abbrev scan : ℕ → ScanRow
scan id = record {
  id = id;
  site_id = 1;
  status = if id == 3 then running else (if id == 4 then canceled else completed);
  progress = 50;
  progress_details = none;
  score = if id == 2 then some 90 else none;
  findings = if id == 2 then v1 [] else other none;
  category_scores = none;
  diff = none;
  active_tests = false;
  trigger = ScanTrigger.schedule;
  completed_at = none;
}

abbrev site : SiteRow
site = record {
  id = 1;
  team_id = 7;
  workspace_id = none;
  scan_frequency = none;
  next_scan_at = none;
  last_scan_id = none;
  last_scan_status = none;
  last_scan_score = none;
  last_scanned_at = none;
}

abbrev tables : Tables
tables = record {
  db = record {
    sites = site ∷ [];
    scans = scan 2 ∷ scan 3 ∷ scan 4 ∷ [];
    ledger = record { subscriptions = λ t. none; transactions = [] };
    next_scan_id = 5;
  };
  checks = no_checks;
}

abbrev select_checks : ℕ → Checks → List ScanCheckRow
select_checks id checks = rows

aggregate_processor-IsReport_example :
    let (after, sent) =
      aggregate_processor exact 20 21 select_checks (some lab) (some field) 3 tables in
    let found = (derive_crux (some lab) (some field) 3 rows no_checks).0 in
    (stored : ScanRow) × (messages : List Message) × (sent ≡ ok messages)
    × (find (has_id 3) after.db.scans ≡ some stored)
    × (stored.status ≡ completed)
    × (stored.trigger ≡ ScanTrigger.schedule)
    × (stored.score ≡ some (overall_score_from_findings exact (build_findings_from_checks found)))
    × IsReport 7 3 (previous_score 1 3 tables.db) stored messages
unfolding load_scan_site
aggregate_processor-IsReport_example =
    aggregate_processor-IsReport exact 20 21 select_checks (some lab) (some field) 3 tables (scan 3)
      site refl refl refl
