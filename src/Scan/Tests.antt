-- ===== src/Scan/Tests.antt =====
-- Two findings, and the theorems about scores and diffs at concrete inputs.
use scan_pal.Common.{
  ℕ, Option, ◌≤◌, ◌≡◌, refl, none, some, List, [], ◌∷◌, Bool, true, false, arith, String, length,
  select,
}
use scan_pal.Scan.Finding.{fixed, Severity, open_, Category, Finding, next_scan, count_severities}
use scan_pal.Scan.Rounding.{exact}
use scan_pal.Scan.Score.{is_scored}
use scan_pal.Scan.Sha256.{sha256hex}
use scan_pal.Scan.Diff.{finding_fingerprint, ScanDiff, compute_scan_diff, snapshot_get, is_current}
use scan_pal.Scan.Counts.{counted, is_gone, IsListed, compute_scan_diff-counts}
use scan_pal.Scan.CarryOver.{apply_finding_status_carry_over, previous_get, IsMatched}
use scan_pal.Scan.Progress.{initial_progress_details, overall_progress, advance_progress_details}
use scan_pal.Scan.Catalog.{check_by_id, check_catalog}
use scan_pal.Scan.Advance.{IsConsistent, advance_all, advance_all-initial_progress_details}
use scan_pal.Scan.Rescan.{AreKnown}

abbrev finding : String → String → Category → Severity → Bool → Finding
finding id check c s active = record {
  id = id;
  check_id = check;
  category = c;
  severity = s;
  title = "t";
  active = active;
  status = open_;
  note = none;
  route_url = none;
  regressed = false;
  snooze_until = some next_scan;
}

abbrev header : Finding
header = finding "1" "http.hsts" Category.http Severity.high false

abbrev cookie : Finding
cookie = finding "2" "compliance.cookie" Category.compliance Severity.low false

abbrev probe : Finding
probe = finding "3" "http.active" Category.http Severity.critical true

abbrev passed : Finding
passed = finding "4" "seo.title" Category.seo Severity.info false

abbrev found : List Finding
found = header ∷ probe ∷ cookie ∷ []

abbrev before : List Finding
before = cookie ∷ header ∷ []

compute_scan_diff-counts_example :
    (counted (compute_scan_diff 5 found (some (passed ∷ before))) ≡ length (select is_scored found))
    × ((compute_scan_diff 5 found (some (passed ∷ before))).resolved
        ≡ count_severities (select (is_gone found) (passed ∷ before)))
    × IsListed (compute_scan_diff 5 found (some (passed ∷ before)))
compute_scan_diff-counts_example = compute_scan_diff-counts 5 found (passed ∷ before)

found-AreKnown : AreKnown found before
unfolding is_current
found-AreKnown fp h = ground arith

before-AreKnown : AreKnown before found
unfolding is_current
before-AreKnown fp h = ground arith

-- The earlier scan, in which the user has set the header to fixed.
abbrev dismissed : List Finding
dismissed = record header { status = fixed; note = some "done" } ∷ cookie ∷ []

found-IsMatched : IsMatched dismissed found
unfolding snapshot_get finding_fingerprint previous_get sha256hex
found-IsMatched = (refl, (refl, (refl, tt)))

abbrev rescan : ScanDiff
rescan =
    compute_scan_diff 5 (apply_finding_status_carry_over found (some dismissed)) (some dismissed)

-- A scan with two checks on HTTP and one on SEO.
abbrev totals : Category → Option ℕ
totals Category.http = some 2
totals Category.seo = some 1
totals _ = none

abbrev completed : List (String × ℕ)
completed = ("https", 1) ∷ ("unknown", 2) ∷ ("meta-tags", 3) ∷ ("robots-sitemap", 4) ∷ []

advance_all-initial_progress_details_example :
    IsConsistent (advance_all exact completed (initial_progress_details totals 0))
    × (overall_progress exact (advance_all exact completed (initial_progress_details totals 0))
        ≤ 100)
advance_all-initial_progress_details_example =
    advance_all-initial_progress_details exact totals 0 completed

-- Two of three checks are done: the second SEO check finds its category done.
overall_progress-completed :
    overall_progress exact (advance_all exact completed (initial_progress_details totals 0)) ≡ 67
unfolding advance_all initial_progress_details overall_progress advance_progress_details check_by_id
    check_catalog exact
overall_progress-completed = refl
