-- ===== src/Scan/Diff.antt =====
-- packages/shared/src/diff.ts: the changes of a scan since the last clean snapshot. The theorems
-- need no law of the hash of a fingerprint, and keep it shut.
use Prim.Native.String
use scan_pal.Common.{
  ℕ, ◌+◌, Option, none, some, List, [], ◌∷◌, ◌++◌, Bool, true, false, ◌&&◌, ◌||◌, not, String,
  str_eq, if◌then◌else◌, ltb, leb, exists,
}
use scan_pal.Scan.Sha256.{sha256hex}
use scan_pal.Scan.Finding.{
  Severity, critical, high, medium, low, info, Snooze, until, next_scan, FindingStatus, open_,
  fixed, ignored, Finding, SeverityCounts, empty_severity_counts, bump, is_open,
}

abbrev or_empty : Option String → String
or_empty none = ""
or_empty (some s) = s

abbrev is_snooze_on : ℕ → Option Snooze → Bool
is_snooze_on now none = false
is_snooze_on now (some next_scan) = true
is_snooze_on now (some (until t)) = ltb now t

unfoldable pub is_snoozed : ℕ → Finding → Bool
is_snoozed now f = is_snooze_on now f.snooze_until

abbrev is_serious : Severity → Bool
is_serious critical = true
is_serious high = true
is_serious _ = false

abbrev is_open_problem : Finding → Bool
is_open_problem f = not f.active && is_open f.status && is_serious f.severity

abbrev passes_score : Option ℕ → Bool
passes_score none = false
passes_score (some s) = leb 80 s

unfoldable pub is_clean_scan : Option ℕ → List Finding → Bool
is_clean_scan score items = passes_score score || not (exists is_open_problem items)

pub record ScanDiff : Type 0 where
  pub new : SeverityCounts
  pub resolved : SeverityCounts
  pub regressed : SeverityCounts
  pub unchanged : SeverityCounts
  pub new_finding_ids : List String
  pub regressed_finding_ids : List String
  pub alert_new : SeverityCounts
  pub alert_regressed : SeverityCounts

unfoldable pub empty_scan_diff : ScanDiff
unfolding empty_severity_counts
empty_scan_diff = record {
  new = empty_severity_counts;
  resolved = empty_severity_counts;
  regressed = empty_severity_counts;
  unchanged = empty_severity_counts;
  new_finding_ids = [];
  regressed_finding_ids = [];
  alert_new = empty_severity_counts;
  alert_regressed = empty_severity_counts;
}

unfoldable pub has_positive_counts : SeverityCounts → Bool
has_positive_counts c =
    ltb 0 c.critical || ltb 0 c.high || ltb 0 c.medium || ltb 0 c.low || ltb 0 c.info

abbrev is_nonempty : List String → Bool
is_nonempty [] = false
is_nonempty (x ∷ xs) = true

unfoldable pub diff_has_changes : ScanDiff → Bool
unfolding has_positive_counts
diff_has_changes d =
    is_nonempty d.new_finding_ids
    || is_nonempty d.regressed_finding_ids
    || has_positive_counts d.new
    || has_positive_counts d.resolved
    || has_positive_counts d.regressed

unfoldable pub severity_rank : Severity → ℕ
severity_rank critical = 4
severity_rank high = 3
severity_rank medium = 2
severity_rank low = 1
severity_rank info = 0

abbrev rank_count : ℕ → Severity → ℕ → ℕ
rank_count min_rank s n = if leb min_rank (severity_rank s) then n else 0

unfoldable pub count_at_or_above : SeverityCounts → Severity → ℕ
unfolding severity_rank
count_at_or_above c threshold =
    let r = severity_rank threshold in
    rank_count r critical c.critical
    + rank_count r high c.high
    + rank_count r medium c.medium
    + rank_count r low c.low
    + rank_count r info c.info

-- What a current finding is, compared with the snapshot's finding of the same fingerprint.
pub data Change : Type 0 where
  new regressed unchanged : Change

abbrev is_dismissed : FindingStatus → Bool
is_dismissed fixed = true
is_dismissed ignored = true
is_dismissed open_ = false

unfoldable pub change_of : Finding → Option Finding → Change
change_of f none = new
change_of f (some old) =
    if is_open f.status && is_dismissed old.status then regressed else unchanged

abbrev pub alert : Bool → Severity → SeverityCounts → SeverityCounts
alert snoozed s counts = if snoozed then counts else bump s counts

abbrev pub record_change : ℕ → Finding → Change → ScanDiff → ScanDiff
record_change now f new d = record d {
  new = bump f.severity d.new;
  new_finding_ids = d.new_finding_ids ++ f.id ∷ [];
  alert_new = alert (is_snoozed now f) f.severity d.alert_new;
}
record_change now f regressed d = record d {
  regressed = bump f.severity d.regressed;
  regressed_finding_ids = d.regressed_finding_ids ++ f.id ∷ [];
  alert_regressed = alert (is_snoozed now f) f.severity d.alert_regressed;
}
record_change now f unchanged d = record d { unchanged = bump f.severity d.unchanged }

abbrev pub snapshot_items : Option (List Finding) → List Finding
snapshot_items none = []
snapshot_items (some s) = s

abbrev pub later_of : (later earlier : Option Finding) → Option Finding
later_of (some g) earlier = some g
later_of none earlier = earlier

unfoldable pub finding_fingerprint : Finding → String
finding_fingerprint f = sha256hex (
    String.◌++◌ f.check_id
      (String.◌++◌ "\0" (String.◌++◌ (or_empty f.route_url) (String.◌++◌ "\0" f.title))))

abbrev pub same_print : String → Finding → Bool
same_print fp f = str_eq (finding_fingerprint f) fp

-- `snapshotByFp.get(fp)`: of findings with one fingerprint the map keeps the last.
unfoldable pub snapshot_get : String → List Finding → Option Finding
snapshot_get fp [] = none
snapshot_get fp (f ∷ fs) = later_of (snapshot_get fp fs) (if same_print fp f then some f else none)

-- The loop over the current findings.
unfoldable pub diff_current : ℕ → List Finding → List Finding → ScanDiff → ScanDiff
diff_current now snapshot [] d = d
diff_current now snapshot (f ∷ fs) d = diff_current now snapshot fs (
    if f.active
    then d
    else record_change now f (change_of f (snapshot_get (finding_fingerprint f) snapshot)) d)

-- `currentFps.has(fp)`: the fingerprints of the current findings that count.
unfoldable pub is_current : String → List Finding → Bool
is_current fp current = exists (λ (f : Finding). not f.active && same_print fp f) current

-- The loop over the snapshot.
unfoldable pub diff_resolved : List Finding → List Finding → ScanDiff → ScanDiff
diff_resolved current [] d = d
diff_resolved current (f ∷ fs) d = diff_resolved current fs (
    if f.active || is_current (finding_fingerprint f) current
    then d
    else record d { resolved = bump f.severity d.resolved })

unfoldable pub compute_scan_diff : ℕ → List Finding → Option (List Finding) → ScanDiff
compute_scan_diff now current snapshot =
    diff_resolved current (snapshot_items snapshot)
      (diff_current now (snapshot_items snapshot) current empty_scan_diff)
