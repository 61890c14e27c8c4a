-- ===== src/Lifecycle/Torn.antt =====
-- What may come between the dispatcher's load and its write.
use scan_pal.Common.{ℕ, ◌≡◌, refl, arith, Option, none, some, List, false, find, update}
use mathlib.Core.Option
use scan_pal.Billing.Ledger.{Clock, refund_credit}
use scan_pal.Schedule.Due.{ScanStatus, running, canceled}
use scan_pal.Scan.Finding.{Category}
use scan_pal.Scan.Progress.{initial_progress_details}
use scan_pal.Lifecycle.Store.{find-update_id, ScanRow, Db, ok, has_id, is_canceled}
use scan_pal.Lifecycle.Sound.{load_dispatch-found}
use scan_pal.Lifecycle.Create.{Scope, set_status, cancel_found, cancel_scan, is_own_scan}
use scan_pal.Lifecycle.Finish.{FinishScanInput, finished, outcome_of, finish_scan}
use scan_pal.Lifecycle.Dispatch.{crawl, load_dispatch, after_load, write_progress_skeleton}

abbrev pub status_of : ℕ → Db → Option ScanStatus
status_of scan db = Option.map (λ (row : ScanRow). row.status) (find (has_id scan) db.scans)

-- The status after an update of a row that exists.
status-update :
    (scan : ℕ) (f : ScanRow → ScanRow) (s : ScanStatus) (scans : List ScanRow) (row : ScanRow)
    → ((r : ScanRow) → (f r).id ≡ r.id)
    → ((r : ScanRow) → (f r).status ≡ s)
    → find (has_id scan) scans ≡ some row
    → (r : ScanRow) × (find (has_id scan) (update (has_id scan) f scans) ≡ some r) × (r.status ≡ s)
status-update scan f s scans row same set e =
    (f row, find-update_id scan f scans row same e, set row)

cancel_found-set :
    (clock : Clock) (team scan : ℕ) (o : Option ScanRow) (db db' : Db) (row : ScanRow)
    → cancel_found clock team scan o db ≡ (db', ok row)
    → (db'.scans ≡ set_status scan canceled db.scans)
      × (db'.ledger ≡ (refund_credit team scan db.ledger).0)
cancel_found-set clock team scan none db db' row h = absurd (ground arith)
cancel_found-set clock team scan (some r) db db' row h = ground arith

finish_scan-status :
    (sql_now js_now : ℕ) (input : FinishScanInput) (db : Db) (row : ScanRow)
    → find (has_id input.scan_id) db.scans ≡ some row
    → is_canceled row.status ≡ false
    → status_of input.scan_id (finish_scan sql_now js_now input db).0 ≡ some input.status
unfolding finish_scan
finish_scan-status sql_now js_now input db row e on =
    let f = finished sql_now input (outcome_of js_now input db.scans) in
    let (r, found, s) =
      status-update input.scan_id f input.status db.scans row (λ r. refl) (λ r. refl) e in
    rw (e, on, found, s) refl

-- When a scan is canceled between the dispatcher's reading of it as queued and its writing, the
-- scan that was canceled runs again, ends with the status of its end, and the ledger is that of
-- the refund.
pub load_dispatch-torn :
    (clock : Clock) (team : ℕ) (scope : Scope) (totals : Category → Option ℕ)
    (now sql_now js_now : ℕ) (input : FinishScanInput) (db db' : Db) (row : ScanRow)
    → load_dispatch input.scan_id db ≡ crawl
    → cancel_scan clock team input.scan_id scope db ≡ (db', ok row)
    → let torn = after_load (load_dispatch input.scan_id db) input.scan_id totals now db' in
      (status_of input.scan_id db' ≡ some canceled)
      × (status_of input.scan_id torn ≡ some running)
      × (status_of input.scan_id (finish_scan sql_now js_now input torn).0 ≡ some input.status)
      × (torn.ledger ≡ (refund_credit team input.scan_id db.ledger).0)
unfolding cancel_scan write_progress_skeleton
load_dispatch-torn clock team scope totals now sql_now js_now input db db' row l h =
    let scan = input.scan_id in
    let (old, e, q) = load_dispatch-found scan db l in
    let (scans, ledger) =
      cancel_found-set clock team scan (find (is_own_scan scan team scope db.sites) db.scans) db db'
        row h in
    let (r, found, off) =
      status-update scan (λ (r : ScanRow). record r { status = canceled }) canceled db.scans old
        (λ r. refl) (λ r. refl) e in
    let found' : find (has_id scan) db'.scans ≡ some r = rw scans found in
    let skeleton = λ (r : ScanRow). record r {
      status = running;
      progress = 0;
      progress_details = some (initial_progress_details totals now);
    } in
    let (r', there, on) =
      status-update scan skeleton running db'.scans r (λ r. refl) (λ r. refl) found' in
    (
      rw (found', off) refl,
      rw (l, there, on) refl,
      rw l (
          finish_scan-status sql_now js_now input (write_progress_skeleton scan totals now db') r'
            there (rw on refl)),
      rw l ledger,
    )
