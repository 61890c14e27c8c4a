-- ===== src/Scan/Rescan.antt =====
-- The changes of a scan (packages/shared/src/diff.ts): the first scan of a site, and a scan that
-- finds what the snapshot has.
use scan_pal.Common.{
  ℕ, ◌≡◌, refl, eq_iff, Bool-cases, inl, inr, ◌⊎◌, arith, Option, none, some, List, [], ◌∷◌, Bool,
  true, false, String, if◌then◌else◌, select,
}
use scan_pal.Scan.Finding.{
  Finding, is_open, count_severities, count_severities_from, empty_severity_counts,
}
use scan_pal.Scan.Score.{is_scored}
use scan_pal.Scan.Diff.{
  ScanDiff, Change, new, unchanged, empty_scan_diff, record_change, change_of, finding_fingerprint,
  snapshot_get, diff_current, is_current, diff_resolved, compute_scan_diff, diff_has_changes,
  same_print, later_of, has_positive_counts,
}
use scan_pal.Scan.Counts.{diff_current-resolved, diff_resolved-eq, is_gone}

-- No finding of the list was set to fixed or ignored.
abbrev pub AllOpen : List Finding → Type 0
AllOpen [] = Unit
AllOpen (f ∷ fs) = (is_open f.status ≡ true) × AllOpen fs

diff_current-first :
    (now : ℕ) (current : List Finding) (d : ScanDiff)
    → ((diff_current now [] current d).new ≡ count_severities_from d.new (select is_scored current))
      × ((diff_current now [] current d).regressed ≡ d.regressed)
      × ((diff_current now [] current d).unchanged ≡ d.unchanged)
unfolding diff_current snapshot_get change_of count_severities_from
diff_current-first now [] d = (refl, refl, refl)
diff_current-first now (f ∷ fs) d =
    ground
      (arith, diff_current-first now fs d, diff_current-first now fs (record_change now f new d))

-- Without a snapshot every current finding that is not of an active test is new, by severity as
-- the list of findings is counted, and nothing has regressed, is unchanged or is resolved.
pub compute_scan_diff-first :
    (now : ℕ) (current : List Finding)
    → ((compute_scan_diff now current none).new ≡ count_severities (select is_scored current))
      × ((compute_scan_diff now current none).regressed ≡ empty_severity_counts)
      × ((compute_scan_diff now current none).unchanged ≡ empty_severity_counts)
      × ((compute_scan_diff now current none).resolved ≡ empty_severity_counts)
unfolding compute_scan_diff count_severities empty_scan_diff diff_resolved
compute_scan_diff-first now current =
    let h = diff_current-first now current empty_scan_diff in
    (h.0, h.1, h.2, diff_current-resolved now [] current empty_scan_diff)

-- The first list has no fingerprint that the second has not, findings of active tests aside.
abbrev pub AreKnown : (fs known : List Finding) → Type 0
AreKnown fs known = (fp : String) → is_current fp fs ≡ true → is_current fp known ≡ true

IsOpenSome : Option Finding → Type 0
IsOpenSome none = ⊥
IsOpenSome (some g) = is_open g.status ≡ true

abbrev IsFound : Option Finding → Type 0
IsFound none = ⊥
IsFound (some g) = Unit

abbrev IsOpenIfFound : Option Finding → Type 0
IsOpenIfFound none = Unit
IsOpenIfFound (some g) = is_open g.status ≡ true

found-open : (o : Option Finding) → IsFound o → IsOpenIfFound o → IsOpenSome o
unfolding IsOpenSome
found-open none h k = h
found-open (some g) h k = k

later_of-IsFound :
    (o : Option Finding) (p : Bool) (f : Finding)
    → (IsFound o) ⊎ (p ≡ true)
    → IsFound (later_of o (if p then some f else none))
later_of-IsFound (some g) p f h = tt
later_of-IsFound none true f h = tt
later_of-IsFound none false f (inl h) = h
later_of-IsFound none false f (inr e) = ground arith

later_of-IsOpen :
    (o : Option Finding) (p : Bool) (f : Finding)
    → is_open f.status ≡ true
    → IsOpenIfFound o
    → IsOpenIfFound (later_of o (if p then some f else none))
later_of-IsOpen (some g) p f h k = k
later_of-IsOpen none true f h k = h
later_of-IsOpen none false f h k = tt

snapshot_get-IsFound :
    (fp : String) (s : List Finding) → is_current fp s ≡ true → IsFound (snapshot_get fp s)
unfolding snapshot_get is_current
snapshot_get-IsFound fp [] h = ground arith
snapshot_get-IsFound fp (f ∷ fs) h =
    later_of-IsFound (snapshot_get fp fs) (same_print fp f) f
      (elim (Bool-cases (is_current fp fs)) [
        | inl e ↦ inl (snapshot_get-IsFound fp fs e)
        | inr e ↦ inr (ground arith)
      ])

snapshot_get-IsOpen :
    (fp : String) (s : List Finding) → AllOpen s → IsOpenIfFound (snapshot_get fp s)
unfolding snapshot_get
snapshot_get-IsOpen fp [] o = tt
snapshot_get-IsOpen fp (f ∷ fs) (o, os) =
    later_of-IsOpen (snapshot_get fp fs) (same_print fp f) f o (snapshot_get-IsOpen fp fs os)

snapshot_get-open :
    (fp : String) (s : List Finding)
    → AllOpen s
    → is_current fp s ≡ true
    → IsOpenSome (snapshot_get fp s)
snapshot_get-open fp s o h =
    found-open (snapshot_get fp s) (snapshot_get-IsFound fp s h) (snapshot_get-IsOpen fp s o)

known-head :
    (f : Finding) (fs known : List Finding)
    → AreKnown (f ∷ fs) known
    → f.active ≡ false
    → is_current (finding_fingerprint f) known ≡ true
unfolding is_current
known-head f fs known k h = let fp = finding_fingerprint f in k fp (ground (arith, eq_iff fp fp))

known-tail : (f : Finding) (fs known : List Finding) → AreKnown (f ∷ fs) known → AreKnown fs known
unfolding is_current
known-tail f fs known k fp h = k fp (ground arith)

change_of-open : (f : Finding) (old : Option Finding) → IsOpenSome old → change_of f old ≡ unchanged
unfolding IsOpenSome change_of
change_of-open f none h = elim h [ ]
change_of-open f (some old) h = ground arith

record_change-quiet :
    (now : ℕ) (f : Finding) (c : Change) (d : ScanDiff)
    → c ≡ unchanged
    → record_change now f c d ≡ record d { unchanged = (record_change now f c d).unchanged }
record_change-quiet now f c d e = rw e refl

-- Findings that the open snapshot has change the unchanged counts only.
diff_current-quiet :
    (now : ℕ) (snapshot fs : List Finding) (d : ScanDiff)
    → AllOpen snapshot
    → AreKnown fs snapshot
    → diff_current now snapshot fs d
      ≡ record d { unchanged = (diff_current now snapshot fs d).unchanged }
unfolding diff_current is_current
diff_current-quiet now snapshot [] d o k = refl
diff_current-quiet now snapshot (f ∷ fs) d o k =
    let fp = finding_fingerprint f in
    let c = change_of f (snapshot_get fp snapshot) in
    let u = known-tail f fs snapshot k in
    ground (
      arith,
      diff_current-quiet now snapshot fs d o u,
      diff_current-quiet now snapshot fs (record_change now f c d) o u,
      known-head f fs snapshot k,
      change_of-open f (snapshot_get fp snapshot),
      snapshot_get-open fp snapshot o,
      record_change-quiet now f c d,
    )

is_gone-known : (fs current : List Finding) → AreKnown fs current → select (is_gone current) fs ≡ []
unfolding is_current
is_gone-known [] current k = refl
is_gone-known (f ∷ fs) current k =
    ground (arith, is_gone-known fs current (known-tail f fs current k), known-head f fs current k)

-- A scan whose findings have the fingerprints of the snapshot's, in any order and number and
-- those of active tests aside, shows no change from a snapshot in which every finding is open.
pub compute_scan_diff-same :
    (now : ℕ) (current snapshot : List Finding)
    → AllOpen snapshot
    → AreKnown current snapshot
    → AreKnown snapshot current
    → diff_has_changes (compute_scan_diff now current (some snapshot)) ≡ false
unfolding compute_scan_diff diff_has_changes empty_scan_diff empty_severity_counts
    count_severities_from has_positive_counts
compute_scan_diff-same now current snapshot o k k' =
    let d = diff_current now snapshot current empty_scan_diff in
    rw
      (
        diff_resolved-eq current snapshot d,
        is_gone-known snapshot current k',
        diff_current-quiet now snapshot current empty_scan_diff o k,
      )
      refl
