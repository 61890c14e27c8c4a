-- ===== src/Lifecycle/Sound.antt =====
-- What each operation on a scan keeps: the ids are a key, and a site has one scan at a time.
use scan_pal.Common.{
  ℕ, ap, ◌≤◌, ◌≡◌, refl, arith, Option, none, some, [], ◌∷◌, true, false, String, ◌==◌, exists,
  find, count, update, Bool-cases, Option-cases, inl, inr, count-append, count-none_of_exists,
  count-update_same, count-update_le, count-update_found,
}
use scan_pal.Billing.Ledger.{Clock, Ledger, SpendOutcome, spent, limit_error, spend_credit}
use scan_pal.Schedule.Due.{ScanStatus, queued, running, completed, failed, canceled}
use scan_pal.Scan.Finding.{Category}
use scan_pal.Scan.Rounding.{Rounding}
use scan_pal.Scan.Progress.{initial_progress_details}
use scan_pal.Lifecycle.Store.{ScanRow, Db, has_id, runs_for, is_active, is_canceled, is_queued}
use scan_pal.Lifecycle.Create.{
  is_own_site, CreateInput, new_scan, insert_scan, commit_scan, create_manual_scan, cancel_found,
}
use scan_pal.Lifecycle.Finish.{
  FinishScanInput, IsFinal, finished, outcome_of, finish_found, finish_scan, fail_at,
}
use scan_pal.Lifecycle.Dispatch.{
  crawl, load_dispatch, write_progress_skeleton, advance_row, advance_category_progress,
}

-- Scan ids are a key, ids that are still to come are free, and no site has two scans queued or
-- running.
pub record IsSound (db : Db) : Type 0 where
  pub keyed : (id : ℕ) → count (has_id id) db.scans ≤ 1
  pub fresh : (id : ℕ) → db.next_scan_id ≤ id → count (has_id id) db.scans ≡ 0
  pub exclusive : (site : ℕ) → count (runs_for site) db.scans ≤ 1

-- A table that another step has left with as many rows of each kind, or fewer.
pub keep :
    (db db' : Db)
    → db'.next_scan_id ≡ db.next_scan_id
    → ((id : ℕ) → count (has_id id) db'.scans ≡ count (has_id id) db.scans)
    → ((site : ℕ) → count (runs_for site) db'.scans ≤ count (runs_for site) db.scans)
    → IsSound db
    → IsSound db'
keep db db' n k e s = record {
  keyed = λ id. omega (arith, k id, s.keyed id);
  fresh = λ id h. omega (arith, k id, s.fresh id (omega arith));
  exclusive = λ site. omega (arith, e site, s.exclusive site);
}

commit-IsSound :
    (clock : Clock) (input : CreateInput) (db : Db) (o : Ledger × SpendOutcome)
    → exists (runs_for input.site_id) db.scans ≡ false
    → IsSound db
    → IsSound (commit_scan db (insert_scan clock input db) (new_scan input db.next_scan_id) o).0
commit-IsSound clock input db (ledger, limit_error u l) free s = s
commit-IsSound clock input db (ledger, spent r) free s =
    let row = new_scan input db.next_scan_id in
    record {
      keyed = λ id.
          ground (arith, count-append (has_id id) db.scans (row ∷ []), s.keyed id, s.fresh id);
      fresh = λ id h.
          ground (arith, count-append (has_id id) db.scans (row ∷ []), s.fresh id (omega arith));
      exclusive = λ site. ground (
        arith,
        count-append (runs_for site) db.scans (row ∷ []),
        s.exclusive site,
        count-none_of_exists (runs_for input.site_id) db.scans free,
      );
    }

pub create_manual_scan-IsSound :
    (clock : Clock) (input : CreateInput) (db : Db)
    → IsSound db
    → IsSound (create_manual_scan clock input db).0
unfolding create_manual_scan
create_manual_scan-IsSound clock input db s =
    let o =
      spend_credit clock
        (record { team_id = input.team_id; reason = "scan"; scan_id = some db.next_scan_id })
        db.ledger in
    elim (Bool-cases (exists (is_own_site input.site_id input.team_id input.scope) db.sites)) [
      | inr missing ↦ rw missing s
      | inl own ↦ elim (Bool-cases (exists (runs_for input.site_id) db.scans)) [
        | inl busy ↦ rw (own, busy) s
        | inr free ↦ rw (own, free) (commit-IsSound clock input db o free s)
      ]
    ]

-- An update by id that keeps the ids and makes the row inactive.
stop-IsSound :
    (id : ℕ) (f : ScanRow → ScanRow) (db db' : Db)
    → db'.next_scan_id ≡ db.next_scan_id
    → db'.scans ≡ update (has_id id) f db.scans
    → ((row : ScanRow) → (f row).id ≡ row.id)
    → ((row : ScanRow) → is_active (f row).status ≡ false)
    → IsSound db
    → IsSound db'
stop-IsSound id f db db' n e same off =
    keep db db' n
      (λ j.
        rw e (
          count-update_same (has_id j) (has_id id) f db.scans (λ row. ap (λ i. i == j) (same row))))
      (λ site.
        rw e
          (count-update_le (runs_for site) (has_id id) f db.scans (λ row. ground (arith, off row))))

pub cancel_found-IsSound :
    (clock : Clock) (team id : ℕ) (o : Option ScanRow) (db : Db)
    → IsSound db
    → IsSound (cancel_found clock team id o db).0
cancel_found-IsSound clock team id none db s = s
cancel_found-IsSound clock team id (some row) db s = elim (Bool-cases (is_active row.status)) [
  | inr over ↦ rw over s
  | inl on ↦
      stop-IsSound id (λ (r : ScanRow). record r { status = canceled }) db
        (cancel_found clock team id (some row) db).0 (rw on refl) (rw on refl) (λ r. refl)
        (λ r. refl) s
]

-- `finishScan` writes a status that is final.
final-inactive : (s : ScanStatus) → IsFinal s → is_active s ≡ false
final-inactive completed h = refl
final-inactive failed h = refl
final-inactive queued h = absurd h
final-inactive running h = absurd h
final-inactive canceled h = absurd h

finish_found-IsSound :
    (sql_now js_now : ℕ) (input : FinishScanInput) (o : Option ScanRow) (db : Db)
    → IsFinal input.status
    → IsSound db
    → IsSound (finish_found sql_now js_now input o db).0
finish_found-IsSound sql_now js_now input none db f s = s
finish_found-IsSound sql_now js_now input (some row) db f s =
    elim (Bool-cases (is_canceled row.status)) [
      | inl off ↦ rw off s
      | inr on ↦
          stop-IsSound input.scan_id (finished sql_now input (outcome_of js_now input db.scans)) db
            (finish_found sql_now js_now input (some row) db).0 (rw on refl) (rw on refl)
            (λ r. refl) (λ r. final-inactive input.status f) s
    ]

pub finish_scan-IsSound :
    (sql_now js_now : ℕ) (input : FinishScanInput) (db : Db)
    → IsFinal input.status
    → IsSound db
    → IsSound (finish_scan sql_now js_now input db).0
unfolding finish_scan
finish_scan-IsSound sql_now js_now input db =
    finish_found-IsSound sql_now js_now input (find (has_id input.scan_id) db.scans) db

pub fail_at-IsSound :
    (sql_now js_now scan : ℕ) (message : String) (site : Option ℕ) (db : Db)
    → IsSound db
    → IsSound (fail_at sql_now js_now scan message site db)
fail_at-IsSound sql_now js_now scan message none db s = s
fail_at-IsSound sql_now js_now scan message (some site) db s =
    finish_scan-IsSound sql_now js_now _ db tt s

-- The skeleton makes the one row that the dispatcher has found running; it was queued before.
skeleton-IsSound :
    (scan : ℕ) (totals : Category → Option ℕ) (now : ℕ) (row : ScanRow) (db : Db)
    → find (has_id scan) db.scans ≡ some row
    → is_queued row.status ≡ true
    → IsSound db
    → IsSound (write_progress_skeleton scan totals now db)
unfolding write_progress_skeleton
skeleton-IsSound scan totals now row db e q s =
    let f = λ (r : ScanRow). record r {
      status = running;
      progress = 0;
      progress_details = some (initial_progress_details totals now);
    } in
    keep db (record db { scans = update (has_id scan) f db.scans }) refl
      (λ j. count-update_same (has_id j) (has_id scan) f db.scans (λ r. refl))
      (λ site. omega (
        arith,
        count-update_found (runs_for site) (has_id scan) f db.scans row e (s.keyed scan)
            (ground arith),
      ))
      s

-- A scan that the dispatcher crawls was found queued.
pub load_dispatch-found :
    (scan : ℕ) (db : Db)
    → load_dispatch scan db ≡ crawl
    → (row : ScanRow) × (find (has_id scan) db.scans ≡ some row) × (is_queued row.status ≡ true)
unfolding load_dispatch
load_dispatch-found scan db h = elim (Option-cases (find (has_id scan) db.scans)) [
  | inl e ↦ absurd (ground arith)
  | inr (row, e) ↦ (row, e, ground arith)
]

pub dispatched-IsSound :
    (scan : ℕ) (totals : Category → Option ℕ) (now : ℕ) (db : Db)
    → load_dispatch scan db ≡ crawl
    → IsSound db
    → IsSound (write_progress_skeleton scan totals now db)
dispatched-IsSound scan totals now db h =
    let (row, e, q) = load_dispatch-found scan db h in skeleton-IsSound scan totals now row db e q

module _ (round : Rounding) where
  pub advance_row-kept :
      (check : String) (now : ℕ) (row : ScanRow)
      → ((advance_row round check now row).id ≡ row.id)
        × ((advance_row round check now row).site_id ≡ row.site_id)
        × ((advance_row round check now row).status ≡ row.status)
  unfolding advance_row
  advance_row-kept check now row = ground arith

  pub advance_category_progress-IsSound :
      (scan : ℕ) (check : String) (now : ℕ) (db : Db)
      → IsSound db
      → IsSound (advance_category_progress round scan check now db)
  unfolding advance_category_progress
  advance_category_progress-IsSound scan check now db s =
      let f = advance_row round check now in
      keep db (record db { scans = update (has_id scan) f db.scans }) refl
        (λ j.
          count-update_same (has_id j) (has_id scan) f db.scans
            (λ r. ap (λ i. i == j) (advance_row-kept check now r).0))
        (λ site. omega (
          arith,
          count-update_same (runs_for site) (has_id scan) f db.scans
              (λ r. ground (arith, advance_row-kept check now r)),
        ))
        s
