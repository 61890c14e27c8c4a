-- ===== src/Scan/CarryOver.antt =====
-- packages/shared/src/findings.ts, applyFindingStatusCarryOver: the statuses of the previous scan
-- that a new scan takes over.
use scan_pal.Common.{
  ℕ, ◌≡◌, refl, sym, ap, ◌∙◌, arith, Option, none, some, List, [], ◌∷◌, String, str_eq,
  if◌then◌else◌, ◌⊎◌, inl, inr,
}
use scan_pal.Scan.Finding.{Finding, SeverityCounts, is_open, empty_severity_counts}
use scan_pal.Scan.Diff.{
  ScanDiff, Change, new, unchanged, empty_scan_diff, later_of, record_change, change_of,
  finding_fingerprint, snapshot_get, diff_current, compute_scan_diff,
}
use scan_pal.Scan.Counts.{diff_resolved-eq, if-both}

-- `previousById.get(id)`: of findings with one id the map keeps the last.
unfoldable pub previous_get : String → List Finding → Option Finding
previous_get id [] = none
previous_get id (f ∷ fs) = later_of (previous_get id fs) (if str_eq f.id id then some f else none)

-- The object that `map` makes of a finding and its previous one.
unfoldable pub carry_item : Option Finding → Finding → Finding
carry_item none f = f
carry_item (some p) f =
    if is_open p.status
    then record f { snooze_until = p.snooze_until }
    else record f { snooze_until = p.snooze_until; status = p.status; note = p.note }

unfoldable pub carry_items : List Finding → List Finding → List Finding
carry_items previous [] = []
carry_items previous (f ∷ fs) = carry_item (previous_get f.id previous) f ∷ carry_items previous fs

unfoldable pub apply_finding_status_carry_over : List Finding → Option (List Finding) → List Finding
apply_finding_status_carry_over current none = current
apply_finding_status_carry_over current (some []) = current
apply_finding_status_carry_over current (some (p ∷ ps)) = carry_items (p ∷ ps) current

carry_item-id : (o : Option Finding) (f : Finding) → (carry_item o f).id ≡ f.id
unfolding carry_item
carry_item-id none f = refl
carry_item-id (some p) f = ground arith

carry_item_idem :
    (o : Option Finding) (f : Finding) → carry_item o (carry_item o f) ≡ carry_item o f
unfolding carry_item
carry_item_idem none f = refl
carry_item_idem (some p) f = ground arith

carry_items_idem :
    (previous fs : List Finding)
    → carry_items previous (carry_items previous fs) ≡ carry_items previous fs
unfolding carry_items
carry_items_idem previous [] = refl
carry_items_idem previous (f ∷ fs) =
    let o = previous_get f.id previous in
    let e : carry_item (previous_get (carry_item o f).id previous) (carry_item o f)
        ≡ carry_item o f =
      ap (λ i. carry_item (previous_get i previous) (carry_item o f)) (carry_item-id o f)
      ∙ carry_item_idem o f in
    ap (λ x. x ∷ carry_items previous (carry_items previous fs)) e
    ∙ ap (λ xs. carry_item o f ∷ xs) (carry_items_idem previous fs)

-- Carrying the statuses of a scan over a second time changes nothing.
pub apply_finding_status_carry_over_idem :
    (current : List Finding) (previous : Option (List Finding))
    → apply_finding_status_carry_over (apply_finding_status_carry_over current previous) previous
      ≡ apply_finding_status_carry_over current previous
unfolding apply_finding_status_carry_over
apply_finding_status_carry_over_idem current none = refl
apply_finding_status_carry_over_idem current (some []) = refl
apply_finding_status_carry_over_idem current (some (p ∷ ps)) = carry_items_idem (p ∷ ps) current

carry_items-none : (fs : List Finding) → carry_items [] fs ≡ fs
unfolding carry_items previous_get carry_item
carry_items-none [] = refl
carry_items-none (f ∷ fs) = ap (λ xs. f ∷ xs) (carry_items-none fs)

carry_over-items :
    (current previous : List Finding)
    → apply_finding_status_carry_over current (some previous) ≡ carry_items previous current
unfolding apply_finding_status_carry_over
carry_over-items current [] = sym (carry_items-none current)
carry_over-items current (p ∷ ps) = refl

-- A finding that has its previous status does not regress from it.
change_of-carry_item :
    (o : Option Finding) (f : Finding)
    → (change_of (carry_item o f) o ≡ new) ⊎ (change_of (carry_item o f) o ≡ unchanged)
unfolding change_of carry_item
change_of-carry_item none f = inl refl
change_of-carry_item (some p) f = inr (ground arith)

-- The part of a diff that is about regressed findings.
abbrev regressions : ScanDiff → SeverityCounts × List String
regressions d = (d.regressed, d.regressed_finding_ids)

record_change-regressions :
    (now : ℕ) (f : Finding) (c : Change) (d : ScanDiff)
    → (c ≡ new) ⊎ (c ≡ unchanged)
    → regressions (record_change now f c d) ≡ regressions d
record_change-regressions now f c d (inl e) = rw e refl
record_change-regressions now f c d (inr e) = rw e refl

carry_item-fingerprint :
    (o : Option Finding) (f : Finding)
    → finding_fingerprint (carry_item o f) ≡ finding_fingerprint f
unfolding carry_item finding_fingerprint
carry_item-fingerprint none f = refl
carry_item-fingerprint (some p) f = ground arith

-- Each finding has the same counterpart in the list by its fingerprint and by its id.
abbrev pub IsMatched : (previous fs : List Finding) → Type 0
IsMatched previous [] = Unit
IsMatched previous (f ∷ fs) =
    (snapshot_get (finding_fingerprint f) previous ≡ previous_get f.id previous)
    × IsMatched previous fs

carried-change :
    (previous : List Finding) (f : Finding)
    → snapshot_get (finding_fingerprint f) previous ≡ previous_get f.id previous
    → let g = carry_item (previous_get f.id previous) f in
      let c = change_of g (snapshot_get (finding_fingerprint g) previous) in
      (c ≡ new) ⊎ (c ≡ unchanged)
carried-change previous f e =
    rw (carry_item-fingerprint (previous_get f.id previous) f, e)
      (change_of-carry_item (previous_get f.id previous) f)

diff_current-regressions :
    (now : ℕ) (previous fs : List Finding) (d : ScanDiff)
    → IsMatched previous fs
    → regressions (diff_current now previous (carry_items previous fs) d) ≡ regressions d
unfolding diff_current carry_items
diff_current-regressions now previous [] d m = refl
diff_current-regressions now previous (f ∷ fs) d (m, ms) =
    let g = carry_item (previous_get f.id previous) f in
    let c = change_of g (snapshot_get (finding_fingerprint g) previous) in
    diff_current-regressions now previous fs (if g.active then d else record_change now g c d) ms
    ∙ if-both {A = ScanDiff} (λ x. regressions x ≡ regressions d) g.active refl
        (record_change-regressions now g c d (carried-change previous f m))

-- When the last clean snapshot is the scan whose statuses were carried over, and fingerprints and
-- ids match the same findings, nothing is counted or listed as regressed.
pub compute_scan_diff-apply_finding_status_carry_over :
    (now : ℕ) (current previous : List Finding)
    → IsMatched previous current
    → let carried = apply_finding_status_carry_over current (some previous) in
      let d = compute_scan_diff now carried (some previous) in
      (d.regressed ≡ empty_severity_counts) × (d.regressed_finding_ids ≡ [])
unfolding compute_scan_diff empty_scan_diff
compute_scan_diff-apply_finding_status_carry_over now current previous m =
    let carried = carry_items previous current in
    let h = diff_current-regressions now previous current empty_scan_diff m in
    rw
      (
        carry_over-items current previous,
        diff_resolved-eq carried previous (diff_current now previous carried empty_scan_diff),
      )
      (ap (λ x. x.0) h, ap (λ x. x.1) h)
