-- ===== src/Lifecycle/Outcome.antt =====
-- What `finishScan` stores of a scan that is completed.
use scan_pal.Common.{
  ℕ, suc, ap, ◌≡◌, refl, arith, ◌∙◌, some, List, [], ◌∷◌, true, false, exists, find, map, length,
  All, Bool-cases, inl, inr, String,
}
use scan_pal.Schedule.Due.{completed}
use scan_pal.Scan.Finding.{Finding}
use scan_pal.Scan.Diff.{ScanDiff, compute_scan_diff}
use scan_pal.Scan.CarryOver.{apply_finding_status_carry_over, carry_items}
use scan_pal.Lifecycle.Store.{
  find-update_id, Payload, v1, other, ScanRow, Db, has_id, is_canceled, ok,
}
use scan_pal.Lifecycle.Finish.{
  FinishScanInput, earlier_scans, carry_payload, carry_over_finding_statuses, find_clean_snapshot,
  has_string, is_next_scan, needs_rewrite, rewrite, rewrite_items, compute_and_write_scan_diff,
  outcome_of, finished, finish_scan,
}

-- The marks on a finding that is stored beside a diff.
abbrev pub IsMarked : List String → Finding → Type 0
IsMarked regressed f =
    (is_next_scan f.snooze_until ≡ false) × (has_string f.id regressed ≡ true → f.regressed ≡ true)

rewrite-IsMarked : (ids : List String) (f : Finding) → IsMarked ids (rewrite ids f)
rewrite-IsMarked ids f = (ground arith, λ h. rw h refl)

map-rewrite-IsMarked :
    (ids : List String) (fs : List Finding) → All (IsMarked ids) (map (rewrite ids) fs)
map-rewrite-IsMarked ids [] = tt
map-rewrite-IsMarked ids (f ∷ fs) = (rewrite-IsMarked ids f, map-rewrite-IsMarked ids fs)

unchanged-IsMarked :
    (ids : List String) (fs : List Finding)
    → exists (needs_rewrite ids) fs ≡ false
    → All (IsMarked ids) fs
unchanged-IsMarked ids [] h = tt
unchanged-IsMarked ids (f ∷ fs) h =
    ((ground arith, λ k. absurd (ground arith)), unchanged-IsMarked ids fs (ground arith))

rewrite_items-IsMarked :
    (ids : List String) (fs : List Finding) → All (IsMarked ids) (rewrite_items ids fs)
unfolding rewrite_items
rewrite_items-IsMarked ids fs = elim (Bool-cases (exists (needs_rewrite ids) fs)) [
  | inl e ↦ rw e (map-rewrite-IsMarked ids fs)
  | inr e ↦ rw e (unchanged-IsMarked ids fs e)
]

length-map : (f : Finding → Finding) (fs : List Finding) → length (map f fs) ≡ length fs
length-map f [] = refl
length-map f (x ∷ fs) = ap suc (length-map f fs)

rewrite_items-length :
    (ids : List String) (fs : List Finding) → length (rewrite_items ids fs) ≡ length fs
unfolding rewrite_items
rewrite_items-length ids fs = ground (arith, length-map (rewrite ids) fs)

-- The carried-over payload of a payload of findings.
pub record IsCarried (n : ℕ) (p : Payload) : Type 0 where
  pub items : List Finding
  pub same : p ≡ v1 items
  pub size : length items ≡ n

carry_items-length : (previous fs : List Finding) → length (carry_items previous fs) ≡ length fs
unfolding carry_items
carry_items-length previous [] = refl
carry_items-length previous (f ∷ fs) = ap suc (carry_items-length previous fs)

carry_over-length :
    (fs previous : List Finding)
    → length (apply_finding_status_carry_over fs (some previous)) ≡ length fs
unfolding apply_finding_status_carry_over
carry_over-length fs [] = refl
carry_over-length fs (p ∷ ps) = carry_items-length (p ∷ ps) fs

carry_payload-IsCarried :
    (items : List Finding) (rows : List ScanRow)
    → IsCarried (length items) (carry_payload items rows)
carry_payload-IsCarried items [] = record { items = items; same = refl; size = refl }
carry_payload-IsCarried items (row ∷ rows) = go row.findings
  where
    go :
        (p : Payload)
        → IsCarried (length items) (elim p [
          | v1 previous ↦ v1 (apply_finding_status_carry_over items (some previous))
          | other e ↦ v1 items
        ])
    go (v1 previous) = record {
      items = apply_finding_status_carry_over items (some previous);
      same = refl;
      size = carry_over-length items previous;
    }
    go (other e) = record { items = items; same = refl; size = refl }

-- What is stored of a completed scan.
pub record IsReported (js_now n : ℕ) (input : FinishScanInput) (scans : List ScanRow)
    (row : ScanRow) : Type 0 where
  pub carried : List Finding
  pub from :
      carry_over_finding_statuses input.scan_id input.site_id input.findings scans ≡ v1 carried
  pub items : List Finding
  pub diff : ScanDiff
  pub stored : row.findings ≡ v1 items
  pub size : length items ≡ n
  pub compared :
      diff
      ≡ compute_scan_diff js_now carried (find_clean_snapshot input.site_id input.scan_id scans)
  pub shown : row.diff ≡ some diff
  pub marked : All (IsMarked diff.regressed_finding_ids) items
  pub status : row.status ≡ completed
  pub progress : row.progress ≡ 100

finished-IsReported :
    (sql_now js_now : ℕ) (input : FinishScanInput) (items : List Finding) (scans : List ScanRow)
    (row : ScanRow)
    → input.status ≡ completed
    → input.findings ≡ v1 items
    → IsReported js_now
        (length items)
        input
        scans
        (finished sql_now input (outcome_of js_now input scans) row)
unfolding outcome_of compute_and_write_scan_diff carry_over_finding_statuses
finished-IsReported sql_now js_now input items scans row s f =
    let c = carry_payload-IsCarried items (earlier_scans input.site_id input.scan_id scans) in
    let d =
      compute_scan_diff js_now c.items (find_clean_snapshot input.site_id input.scan_id scans) in
    record {
      carried = c.items;
      from = rw f c.same;
      items = rewrite_items d.regressed_finding_ids c.items;
      diff = d;
      stored = rw (s, f, c.same) refl;
      size = rewrite_items-length d.regressed_finding_ids c.items ∙ c.size;
      compared = refl;
      shown = rw (s, f, c.same) refl;
      marked = rewrite_items-IsMarked d.regressed_finding_ids c.items;
      status = s;
      progress = refl;
    }

-- A scan that is there and not canceled, and ends as completed with a list of findings, is
-- stored, as the row that is returned and found under its id, with as many findings, with the
-- diff from its last clean snapshot of the carried-over findings, with the regressed ones marked
-- and no snooze until the next scan left, and with its progress at 100.
pub finish_scan-IsReported :
    (sql_now js_now : ℕ) (input : FinishScanInput) (items : List Finding) (db : Db) (row : ScanRow)
    → input.status ≡ completed
    → input.findings ≡ v1 items
    → find (has_id input.scan_id) db.scans ≡ some row
    → is_canceled row.status ≡ false
    → (stored : ScanRow) × ((finish_scan sql_now js_now input db).1 ≡ ok stored)
      × (find (has_id input.scan_id) (finish_scan sql_now js_now input db).0.scans ≡ some stored)
      × IsReported js_now (length items) input db.scans stored
unfolding finish_scan
finish_scan-IsReported sql_now js_now input items db row s f e on =
    let change = finished sql_now input (outcome_of js_now input db.scans) in
    let there = find-update_id input.scan_id change db.scans row (λ r. refl) e in
    (
      change row,
      rw (e, on, there) refl,
      rw (e, on) there,
      finished-IsReported sql_now js_now input items db.scans row s f,
    )
