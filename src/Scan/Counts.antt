-- ===== src/Scan/Counts.antt =====
-- The changes of a scan (packages/shared/src/diff.ts): what the counts add up to.
use scan_pal.Common.{
  ℕ, suc, ◌+◌, ◌≤◌, ◌≡◌, refl, arith, Option, some, List, [], ◌∷◌, Bool, true, false, not,
  if◌then◌else◌, length, select, length-snoc, ap, ◌∙◌, ◌&&◌,
}
use scan_pal.Scan.Finding.{
  Severity, Finding, SeverityCounts, bump, count_severities, count_severities_from, total, get,
  total-bump, get-bump, empty_severity_counts,
}
use scan_pal.Scan.Score.{is_scored}
use scan_pal.Scan.Diff.{
  ScanDiff, Change, new, regressed, unchanged, empty_scan_diff, record_change, alert, change_of,
  is_snoozed, finding_fingerprint, snapshot_get, diff_current, is_current, diff_resolved,
  snapshot_items, compute_scan_diff,
}

-- What a diff has counted of the current findings.
abbrev pub counted : ScanDiff → ℕ
counted d = total d.new + total d.regressed + total d.unchanged

-- The lists of ids are as long as their counts.
abbrev pub IsListed : ScanDiff → Type 0
IsListed d =
    (length d.new_finding_ids ≡ total d.new) × (length d.regressed_finding_ids ≡ total d.regressed)

record_change-counted :
    (now : ℕ) (f : Finding) (c : Change) (d : ScanDiff)
    → counted (record_change now f c d) ≡ suc (counted d)
record_change-counted now f new d = omega (arith, total-bump f.severity d.new)
record_change-counted now f regressed d = omega (arith, total-bump f.severity d.regressed)
record_change-counted now f unchanged d = omega (arith, total-bump f.severity d.unchanged)

record_change-IsListed :
    (now : ℕ) (f : Finding) (c : Change) (d : ScanDiff)
    → IsListed d
    → IsListed (record_change now f c d)
record_change-IsListed now f new d (a, b) =
    (omega (arith, total-bump f.severity d.new, length-snoc d.new_finding_ids f.id), b)
record_change-IsListed now f regressed d (a, b) =
    (a, omega (arith, total-bump f.severity d.regressed, length-snoc d.regressed_finding_ids f.id))
record_change-IsListed now f unchanged d h = h

record_change-resolved :
    (now : ℕ) (f : Finding) (c : Change) (d : ScanDiff)
    → (record_change now f c d).resolved ≡ d.resolved
record_change-resolved now f new d = refl
record_change-resolved now f regressed d = refl
record_change-resolved now f unchanged d = refl

-- For every severity the findings to alert about are among the new, or among the regressed.
abbrev pub IsAlerted : ScanDiff → Type 0
IsAlerted d =
    (r : Severity)
    → (get r d.alert_new ≤ get r d.new) × (get r d.alert_regressed ≤ get r d.regressed)

bump_mono :
    (r s : Severity) (a n : SeverityCounts)
    → get r a ≤ get r n
    → get r (bump s a) ≤ get r (bump s n)
unfolding bump
bump_mono r s a n h = ground arith

alert-bump :
    (snoozed : Bool) (r s : Severity) (a n : SeverityCounts)
    → get r a ≤ get r n
    → get r (alert snoozed s a) ≤ get r (bump s n)
alert-bump true r s a n h = omega (arith, get-bump r s n)
alert-bump false r s a n h = bump_mono r s a n h

record_change-IsAlerted :
    (now : ℕ) (f : Finding) (c : Change) (d : ScanDiff)
    → IsAlerted d
    → IsAlerted (record_change now f c d)
record_change-IsAlerted now f new d h r =
    (alert-bump (is_snoozed now f) r f.severity d.alert_new d.new (h r).0, (h r).1)
record_change-IsAlerted now f regressed d h r =
    ((h r).0, alert-bump (is_snoozed now f) r f.severity d.alert_regressed d.regressed (h r).1)
record_change-IsAlerted now f unchanged d h r = h r

pub if-both :
    {A : Type 0} (P : A → Type 0) (b : Bool) {x y : A} → P x → P y → P (if b then x else y)
if-both P true hx hy = hx
if-both P false hx hy = hy

diff_current-counted :
    (now : ℕ) (snapshot current : List Finding) (d : ScanDiff)
    → counted (diff_current now snapshot current d) ≡ counted d + length (select is_scored current)
unfolding diff_current
diff_current-counted now snapshot [] d = omega arith
diff_current-counted now snapshot (f ∷ fs) d =
    let c = change_of f (snapshot_get (finding_fingerprint f) snapshot) in
    ground (
      arith,
      diff_current-counted now snapshot fs d,
      diff_current-counted now snapshot fs (record_change now f c d),
      record_change-counted now f c d,
    )

diff_current-IsListed :
    (now : ℕ) (snapshot current : List Finding) (d : ScanDiff)
    → IsListed d
    → IsListed (diff_current now snapshot current d)
unfolding diff_current
diff_current-IsListed now snapshot [] d h = h
diff_current-IsListed now snapshot (f ∷ fs) d h =
    let c = change_of f (snapshot_get (finding_fingerprint f) snapshot) in
    diff_current-IsListed now snapshot fs (if f.active then d else record_change now f c d)
      (if-both {A = ScanDiff} IsListed f.active h (record_change-IsListed now f c d h))

-- A finding of the snapshot that counts and whose fingerprint no current finding has.
abbrev pub is_gone : List Finding → Finding → Bool
is_gone current f = not f.active && not (is_current (finding_fingerprint f) current)

-- The second loop changes the resolved counts only.
pub diff_resolved-eq :
    (current snapshot : List Finding) (d : ScanDiff)
    → diff_resolved current snapshot d
      ≡ record d { resolved = count_severities_from d.resolved (select (is_gone current) snapshot) }
unfolding diff_resolved count_severities_from
diff_resolved-eq current [] d = refl
diff_resolved-eq current (f ∷ fs) d = ground (
  arith,
  diff_resolved-eq current fs d,
  diff_resolved-eq current fs (record d { resolved = bump f.severity d.resolved }),
)

count_severities-total :
    (counts : SeverityCounts) (fs : List Finding)
    → total (count_severities_from counts fs) ≡ total counts + length fs
unfolding count_severities_from
count_severities-total counts [] = omega arith
count_severities-total counts (f ∷ fs) =
    omega (arith, count_severities-total (bump f.severity counts) fs, total-bump f.severity counts)

-- The resolved counts of the first loop.
pub diff_current-resolved :
    (now : ℕ) (snapshot current : List Finding) (d : ScanDiff)
    → (diff_current now snapshot current d).resolved ≡ d.resolved
unfolding diff_current
diff_current-resolved now snapshot [] d = refl
diff_current-resolved now snapshot (f ∷ fs) d =
    let c = change_of f (snapshot_get (finding_fingerprint f) snapshot) in
    diff_current-resolved now snapshot fs (if f.active then d else record_change now f c d)
    ∙ if-both {A = ScanDiff} (λ x. x.resolved ≡ d.resolved) f.active refl
        (record_change-resolved now f c d)

-- A diff places every current finding that is not of an active test in exactly one of the classes
-- new, regressed and unchanged, counts as resolved, by severity, the findings of the snapshot
-- whose fingerprint is gone, and lists as many ids of new and of regressed findings as it counts.
pub compute_scan_diff-counts :
    (now : ℕ) (current snapshot : List Finding)
    → (counted (compute_scan_diff now current (some snapshot)) ≡ length (select is_scored current))
      × ((compute_scan_diff now current (some snapshot)).resolved
          ≡ count_severities (select (is_gone current) snapshot))
      × IsListed (compute_scan_diff now current (some snapshot))
unfolding compute_scan_diff count_severities empty_scan_diff empty_severity_counts
compute_scan_diff-counts now current snapshot =
    let d = diff_current now snapshot current empty_scan_diff in
    rw (diff_resolved-eq current snapshot d) (
      omega (arith, diff_current-counted now snapshot current empty_scan_diff),
      ap (λ r. count_severities_from r (select (is_gone current) snapshot))
          (diff_current-resolved now snapshot current empty_scan_diff),
      diff_current-IsListed now snapshot current empty_scan_diff (refl, refl),
    )

diff_current-IsAlerted :
    (now : ℕ) (snapshot current : List Finding) (d : ScanDiff)
    → IsAlerted d
    → IsAlerted (diff_current now snapshot current d)
unfolding diff_current
diff_current-IsAlerted now snapshot [] d h = h
diff_current-IsAlerted now snapshot (f ∷ fs) d h =
    let c = change_of f (snapshot_get (finding_fingerprint f) snapshot) in
    diff_current-IsAlerted now snapshot fs (if f.active then d else record_change now f c d)
      (if-both {A = ScanDiff} IsAlerted f.active h (record_change-IsAlerted now f c d h))

-- A diff never alerts about more findings of a severity than it counts as new, or as regressed.
pub compute_scan_diff-alerts :
    (now : ℕ) (current : List Finding) (snapshot : Option (List Finding)) (r : Severity)
    → (get r (compute_scan_diff now current snapshot).alert_new
        ≤ get r (compute_scan_diff now current snapshot).new)
      × (get r (compute_scan_diff now current snapshot).alert_regressed
          ≤ get r (compute_scan_diff now current snapshot).regressed)
unfolding compute_scan_diff empty_scan_diff empty_severity_counts
compute_scan_diff-alerts now current snapshot r =
    let d = diff_current now (snapshot_items snapshot) current empty_scan_diff in
    rw (diff_resolved-eq current (snapshot_items snapshot) d) (
      diff_current-IsAlerted now (snapshot_items snapshot) current empty_scan_diff
        (λ q. ground arith) r)
