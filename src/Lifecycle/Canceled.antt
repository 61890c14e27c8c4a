-- ===== src/Lifecycle/Canceled.antt =====
-- What the steps of Steps.antt leave of a scan that was canceled.
use scan_pal.Common.{
  ℕ, ap, sym, ◌≡◌, refl, arith, ◌∙◌, Option, none, some, List, [], ◌∷◌, true, false, String, ◌==◌,
  ==_iff, if◌then◌else◌, exists, find, update, Bool-cases, Option-cases, inl, inr, find-update,
  find-append_found, find-holds,
}
use mathlib.Core.Option
use mathlib.Core.Path.{subst}
use scan_pal.Billing.Ledger.{Clock, Ledger, SpendOutcome, spent, limit_error, spend_credit}
use scan_pal.Schedule.Due.{running, canceled}
use scan_pal.Scan.Finding.{Category}
use scan_pal.Scan.Rounding.{Rounding}
use scan_pal.Scan.Progress.{initial_progress_details}
use scan_pal.Lifecycle.Store.{ScanRow, Db, has_id, is_active, is_canceled, runs_for}
use scan_pal.Lifecycle.Create.{
  CreateInput, new_scan, insert_scan, commit_scan, create_manual_scan, cancel_found, cancel_scan,
  is_own_scan, is_own_site, set_site_schedule,
}
use scan_pal.Lifecycle.Finish.{
  FinishScanInput, finished, outcome_of, finish_found, finish_scan, load_scan_site, fail_at,
  mark_scan_failed,
}
use scan_pal.Lifecycle.Dispatch.{
  crawl, load_dispatch, write_progress_skeleton, advance_row, advance_category_progress,
}
use scan_pal.Lifecycle.Sound.{load_dispatch-found, advance_row-kept}
use scan_pal.Lifecycle.Steps.{Step, Reach, here, next}

abbrev pub IsCanceledRow : Option ScanRow → Type 0
IsCanceledRow none = ⊥
IsCanceledRow (some row) = is_canceled row.status ≡ true

-- The scan with this id is canceled.
abbrev pub IsCanceledAt : ℕ → Db → Type 0
IsCanceledAt id db = IsCanceledRow (find (has_id id) db.scans)

IsCanceledRow-map :
    (g : ScanRow → ScanRow) (o : Option ScanRow)
    → ((row : ScanRow)
        → o ≡ some row
        → is_canceled row.status ≡ true
        → is_canceled (g row).status ≡ true)
    → IsCanceledRow o
    → IsCanceledRow (Option.map g o)
IsCanceledRow-map g none h c = c
IsCanceledRow-map g (some row) h c = h row refl c

-- An update by id that keeps ids, and keeps the status of the row if it is canceled.
update-canceled :
    (id j : ℕ) (f : ScanRow → ScanRow) (scans : List ScanRow)
    → ((row : ScanRow) → (f row).id ≡ row.id)
    → ((row : ScanRow)
        → find (has_id id) scans ≡ some row
        → is_canceled row.status ≡ true
        → is_canceled (if has_id j row then f row else row).status ≡ true)
    → IsCanceledRow (find (has_id id) scans)
    → IsCanceledRow (find (has_id id) (update (has_id j) f scans))
update-canceled id j f scans same h c =
    rw (find-update (has_id id) (has_id j) f scans (λ row. ap (λ i. i == id) (same row)))
      (IsCanceledRow-map (λ row. if has_id j row then f row else row) (find (has_id id) scans) h c)

-- The scan that is found under another id is another row.
update_other-canceled :
    (id j : ℕ) (f : ScanRow → ScanRow) (found : ScanRow) (scans : List ScanRow)
    → ((row : ScanRow) → (f row).id ≡ row.id)
    → find (has_id j) scans ≡ some found
    → is_canceled found.status ≡ false
    → IsCanceledRow (find (has_id id) scans)
    → IsCanceledRow (find (has_id id) (update (has_id j) f scans))
update_other-canceled id j f found scans same e off c =
    update-canceled id j f scans same
      (λ row at on. elim (Bool-cases (has_id j row)) [
        | inr other ↦ rw other on
        | inl hit ↦
            let i : row.id ≡ id = (==_iff row.id id).0 (find-holds (has_id id) scans row at) in
            let k : row.id ≡ j = (==_iff row.id j).0 hit in
            let both : find (has_id j) scans ≡ some row =
              subst (λ x. find (has_id x) scans ≡ some row) (sym i ∙ k) at in
            absurd (ground arith)
      ])
      c

commit-canceled :
    (id : ℕ) (clock : Clock) (input : CreateInput) (row : ScanRow) (db : Db)
    (o : Ledger × SpendOutcome)
    → IsCanceledAt id db
    → IsCanceledAt id (commit_scan db (insert_scan clock input db) row o).0
commit-canceled id clock input row db (ledger, limit_error u l) c = c
commit-canceled id clock input row db (ledger, spent r) c =
    elim (Option-cases (find (has_id id) db.scans)) [
      | inl e ↦ absurd (subst IsCanceledRow e c)
      | inr (old, e) ↦
          rw (find-append_found (has_id id) db.scans (new_scan input db.next_scan_id ∷ []) old e)
            (subst IsCanceledRow e c)
    ]

create-canceled :
    (id : ℕ) (clock : Clock) (input : CreateInput) (db : Db)
    → IsCanceledAt id db
    → IsCanceledAt id (create_manual_scan clock input db).0
unfolding create_manual_scan
create-canceled id clock input db c =
    let row = new_scan input db.next_scan_id in
    let o =
      spend_credit clock
        (record { team_id = input.team_id; reason = "scan"; scan_id = some db.next_scan_id })
        db.ledger in
    elim (Bool-cases (exists (is_own_site input.site_id input.team_id input.scope) db.sites)) [
      | inr missing ↦ rw missing c
      | inl own ↦ elim (Bool-cases (exists (runs_for input.site_id) db.scans)) [
        | inl busy ↦ rw (own, busy) c
        | inr free ↦ rw (own, free) (commit-canceled id clock input row db o c)
      ]
    ]

cancel_found-canceled :
    (id : ℕ) (clock : Clock) (team j : ℕ) (o : Option ScanRow) (db : Db)
    → IsCanceledAt id db
    → IsCanceledAt id (cancel_found clock team j o db).0
cancel_found-canceled id clock team j none db c = c
cancel_found-canceled id clock team j (some row) db c = elim (Bool-cases (is_active row.status)) [
  | inr over ↦ rw over c
  | inl on ↦ rw on (
      update-canceled id j (λ (r : ScanRow). record r { status = canceled }) db.scans (λ r. refl)
        (λ r at off. ground arith) c)
]

finish_found-canceled :
    (id sql_now js_now : ℕ) (input : FinishScanInput) (o : Option ScanRow) (db : Db)
    → find (has_id input.scan_id) db.scans ≡ o
    → IsCanceledAt id db
    → IsCanceledAt id (finish_found sql_now js_now input o db).0
finish_found-canceled id sql_now js_now input none db e c = c
finish_found-canceled id sql_now js_now input (some row) db e c =
    elim (Bool-cases (is_canceled row.status)) [
      | inl off ↦ rw off c
      | inr on ↦ rw on (
          update_other-canceled id input.scan_id
            (finished sql_now input (outcome_of js_now input db.scans)) row db.scans (λ r. refl) e
            on c)
    ]

finish-canceled :
    (id sql_now js_now : ℕ) (input : FinishScanInput) (db : Db)
    → IsCanceledAt id db
    → IsCanceledAt id (finish_scan sql_now js_now input db).0
unfolding finish_scan
finish-canceled id sql_now js_now input db =
    finish_found-canceled id sql_now js_now input (find (has_id input.scan_id) db.scans) db refl

fail_at-canceled :
    (id sql_now js_now scan : ℕ) (message : String) (site : Option ℕ) (db : Db)
    → IsCanceledAt id db
    → IsCanceledAt id (fail_at sql_now js_now scan message site db)
fail_at-canceled id sql_now js_now scan message none db c = c
fail_at-canceled id sql_now js_now scan message (some site) db c =
    finish-canceled id sql_now js_now _ db c

dispatched-canceled :
    (id scan : ℕ) (totals : Category → Option ℕ) (now : ℕ) (db : Db)
    → load_dispatch scan db ≡ crawl
    → IsCanceledAt id db
    → IsCanceledAt id (write_progress_skeleton scan totals now db)
unfolding write_progress_skeleton
dispatched-canceled id scan totals now db h c =
    let (row, e, q) = load_dispatch-found scan db h in
    update_other-canceled id scan
      (λ (r : ScanRow). record r {
        status = running;
        progress = 0;
        progress_details = some (initial_progress_details totals now);
      })
      row db.scans (λ r. refl) e (ground arith) c

module _ (round : Rounding) where
  Step-canceled :
      (id : ℕ) {db db' : Db} → Step round db db' → IsCanceledAt id db → IsCanceledAt id db'
  unfolding cancel_scan set_site_schedule mark_scan_failed advance_category_progress
  Step-canceled id (Step.created clock input db) c = create-canceled id clock input db c
  Step-canceled id (Step.withdrawn clock team j scope db) c =
      cancel_found-canceled id clock team j (find (is_own_scan j team scope db.sites) db.scans) db c
  Step-canceled id (Step.rescheduled now team site scope frequency db) c =
      elim (Bool-cases (exists (is_own_site site team scope) db.sites)) [
        | inl e ↦ rw e c
        | inr e ↦ rw e c
      ]
  Step-canceled id (Step.dispatched scan totals now db load) c =
      dispatched-canceled id scan totals now db load c
  Step-canceled id (Step.advanced scan check now db) c =
      update-canceled id scan (advance_row round check now) db.scans
        (λ r. (advance_row-kept round check now r).0)
        (λ r at off. ground (arith, advance_row-kept round check now r)) c
  Step-canceled id (Step.ended sql_now js_now input db f) c =
      finish-canceled id sql_now js_now input db c
  Step-canceled id (Step.broken sql_now js_now scan message db) c =
      fail_at-canceled id sql_now js_now scan message (load_scan_site scan db) db c

  -- A scan that is canceled stays canceled through any sequence of the steps, in which the
  -- dispatcher writes only to a scan that is still queued, as it read it: no end, failure,
  -- dispatch, progress or other scan changes its status.
  pub Reach-canceled :
      (id : ℕ) {db db' : Db} → Reach round db db' → IsCanceledAt id db → IsCanceledAt id db'
  Reach-canceled id here c = c
  Reach-canceled id (next r step) c = Step-canceled id step (Reach-canceled id r c)
