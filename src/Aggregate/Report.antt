-- ===== src/Aggregate/Report.antt =====
-- What the aggregator reports: apps/worker/src/queues/aggregate.ts.
use scan_pal.Common.{
  ℕ, ◌≡◌, inl, inr, Option-cases, refl, sym, ap, ◌∙◌, arith, Option, some, List, [], ◌∷◌, ◌++◌,
  true, false, ◌==◌, ==_self, exists, find, find-exists, select, update, Bool-cases,
  exists-update_same,
}
use mathlib.Core.List.{reverse}
use scan_pal.Schedule.Due.{completed}
use scan_pal.Scan.Finding.{Finding}
use scan_pal.Scan.Rounding.{Rounding}
use scan_pal.Scan.Score.{category_scores_from_findings, overall_score_from_findings}
use scan_pal.Lifecycle.Store.{
  find-update_id, v1, ScanRow, SiteRow, Db, Result, ok, is_canceled, has_id, set_site_scan_state,
}
use scan_pal.Lifecycle.Finish.{
  written_row, FinishScanInput, finish_scan, finished, outcome_of, earlier_scans, is_earlier,
}
use scan_pal.Aggregate.Checks.{ScanCheckRow, Checks}
use scan_pal.Aggregate.Build.{build_findings_from_checks}
use scan_pal.Aggregate.Crux.{LabCwv, CruxData}
use scan_pal.Aggregate.Process.{
  Message, load_scan_site, first_score, previous_score, emit_scan_finished_notifications, alert_for,
  emit_scan_diff_alert, Tables, derive_crux, report, finish_with, aggregate_processor,
}
use scan_pal.Aggregate.Alerts.{IsReport, messages-IsReport}

-- The scan itself is not among the earlier scans.
earlier_scans-update :
    (site scan : ℕ) (f : ScanRow → ScanRow) (scans : List ScanRow)
    → ((row : ScanRow) → (f row).id ≡ row.id)
    → earlier_scans site scan (update (has_id scan) f scans) ≡ earlier_scans site scan scans
earlier_scans-update site scan f scans h = ap reverse (go scans)
  where
    go :
        (rows : List ScanRow)
        → select (is_earlier site scan) (update (has_id scan) f rows)
          ≡ select (is_earlier site scan) rows
    go [] = refl
    go (row ∷ rows) = elim (Bool-cases (row.id == scan)) [
      | inl own ↦ rw (own, h row, go rows) (ground arith)
      | inr other ↦ rw (other, go rows) (rw other refl)
    ]

module _ (round : Rounding) (sql_now js_now : ℕ) where
  -- What is handed to `finishScan`.
  abbrev input_of : (site scan : ℕ) → List Finding → FinishScanInput
  input_of site scan items = record {
    scan_id = scan;
    site_id = site;
    status = completed;
    score = some (overall_score_from_findings round items);
    findings = v1 items;
    category_scores = some (category_scores_from_findings round items);
  }

  abbrev stored_of : (site scan : ℕ) → List Finding → Db → ScanRow → ScanRow
  stored_of site scan items db row =
      let input = input_of site scan items in
      finished sql_now input (outcome_of js_now input db.scans) row

  abbrev finished_db : (site scan : ℕ) → List Finding → Db → Db
  finished_db site scan items db =
      let input = input_of site scan items in
      record db {
        scans =
            update (has_id scan) (finished sql_now input (outcome_of js_now input db.scans))
              db.scans;
        sites = set_site_scan_state sql_now site scan completed input.score db.sites;
      }

  stored-found :
      (site scan : ℕ) (items : List Finding) (db : Db) (row : ScanRow)
      → find (has_id scan) db.scans ≡ some row
      → find (has_id scan) (finished_db site scan items db).scans
        ≡ some (stored_of site scan items db row)
  stored-found site scan items db row e =
      find-update_id scan
        (finished sql_now (input_of site scan items)
          (outcome_of js_now (input_of site scan items) db.scans))
        db.scans row (λ r. refl) e

  finish_scan-found :
      (site scan : ℕ) (items : List Finding) (db : Db) (row : ScanRow)
      → find (has_id scan) db.scans ≡ some row
      → is_canceled row.status ≡ false
      → finish_scan sql_now js_now (input_of site scan items) db
        ≡ (finished_db site scan items db, ok (stored_of site scan items db row))
  unfolding finish_scan
  finish_scan-found site scan items db row e on =
      rw (e, on)
        (ap (λ o. (finished_db site scan items db, written_row o))
          (stored-found site scan items db row e))

  abbrev messages_of : (team site scan : ℕ) → Db → ScanRow → List Message
  messages_of team site scan db row =
      emit_scan_finished_notifications team scan row
      ++ alert_for team scan (previous_score site scan db) row

  report-found :
      (team site scan : ℕ) (db : Db) (row : ScanRow)
      → is_canceled row.status ≡ false
      → exists (λ (s : SiteRow). s.id == site) db.sites ≡ true
      → report team site scan (db, ok row) ≡ (db, ok (messages_of team site scan db row))
  unfolding emit_scan_diff_alert
  report-found team site scan db row on here = rw (on, here) refl

  finish_with-found :
      (team site scan : ℕ) (items : List Finding) (db : Db) (row : ScanRow)
      → find (has_id scan) db.scans ≡ some row
      → is_canceled row.status ≡ false
      → exists (λ (s : SiteRow). s.id == site) db.sites ≡ true
      → finish_with round sql_now js_now team site scan items db ≡ (
        finished_db site scan items db,
        ok (messages_of team site scan db (stored_of site scan items db row)),
      )
  unfolding set_site_scan_state previous_score
  finish_with-found team site scan items db row e on here =
      let f =
        finished sql_now (input_of site scan items)
          (outcome_of js_now (input_of site scan items) db.scans) in
      let stored = stored_of site scan items db row in
      let still =
        exists-update_same (λ (s : SiteRow). s.id == site) (λ (s : SiteRow). s.id == site) _
          db.sites (λ s. refl)
        ∙ here in
      ap (report team site scan) (finish_scan-found site scan items db row e on)
      ∙ report-found team site scan (finished_db site scan items db) stored refl still
      ∙ ap (λ rows. ended_with rows) (earlier_scans-update site scan f db.scans (λ r. refl))
    where
      ended_with : List ScanRow → Db × Result (List Message)
      ended_with rows = (
        finished_db site scan items db,
        ok (
            emit_scan_finished_notifications team scan (stored_of site scan items db row)
            ++ alert_for team scan (first_score rows) (stored_of site scan items db row)),
      )

  load_scan_site-exists :
      (scan : ℕ) (db : Db) (row : ScanRow) (site : SiteRow)
      → find (has_id scan) db.scans ≡ some row
      → load_scan_site scan db ≡ some site
      → exists (λ (s : SiteRow). s.id == site.id) db.sites ≡ true
  unfolding load_scan_site
  load_scan_site-exists scan db row site e l =
      let join : load_scan_site scan db ≡ find (λ (s : SiteRow). s.id == row.site_id) db.sites =
        rw (e, load_scan_site) refl in
      let found : find (λ (s : SiteRow). s.id == row.site_id) db.sites ≡ some site = sym join ∙ l in
      find-exists (λ (s : SiteRow). s.id == row.site_id) (λ (s : SiteRow). s.id == site.id) db.sites
        site found (==_self site.id)

-- When a scan is there with its site and is not canceled, the aggregator stores it as completed,
-- with the score of the findings that it built, and sends exactly one scan_done, a
-- critical_finding exactly when the stored findings hold a critical one, and, unless the scan was
-- started by hand, a scan_diff exactly when the stored diff has a new or regressed finding of
-- medium severity or more to alert to, or the score fell by five at least since the last score of
-- an earlier completed scan; a scan started by hand sends no scan_diff, and all messages name the
-- scan and the team.
pub aggregate_processor-IsReport :
    (round : Rounding) (sql_now js_now : ℕ) (select_checks : ℕ → Checks → List ScanCheckRow)
    (lab : Option LabCwv) (crux : Option CruxData) (scan : ℕ) (tables : Tables) (row : ScanRow)
    (site : SiteRow)
    → find (has_id scan) tables.db.scans ≡ some row
    → load_scan_site scan tables.db ≡ some site
    → is_canceled row.status ≡ false
    → let (after, sent) =
        aggregate_processor round sql_now js_now select_checks lab crux scan tables in
      let rows = (derive_crux lab crux scan (select_checks scan tables.checks) tables.checks).0 in
      (stored : ScanRow) × (messages : List Message) × (sent ≡ ok messages)
      × (find (has_id scan) after.db.scans ≡ some stored)
      × (stored.status ≡ completed)
      × (stored.trigger ≡ row.trigger)
      × (stored.score ≡ some (overall_score_from_findings round (build_findings_from_checks rows)))
      × IsReport site.team_id scan (previous_score site.id scan tables.db) stored messages
unfolding aggregate_processor
aggregate_processor-IsReport round sql_now js_now select_checks lab crux scan tables row site e l
      on =
    let items =
      build_findings_from_checks
        (derive_crux lab crux scan (select_checks scan tables.checks) tables.checks).0 in
    let here = load_scan_site-exists round sql_now js_now scan tables.db row site e l in
    let ended =
      finish_with-found round sql_now js_now site.team_id site.id scan items tables.db row e on
        here in
    let stored = stored_of round sql_now js_now site.id scan items tables.db row in
    rw (l, aggregate_processor)
      (
        stored,
        messages_of round sql_now js_now site.team_id site.id scan tables.db stored,
        ap (λ (r : Db × Result (List Message)). r.1) ended,
        ap (λ (r : Db × Result (List Message)). find (has_id scan) r.0.scans) ended
            ∙ stored-found round sql_now js_now site.id scan items tables.db row e,
        refl,
        refl,
        refl,
        messages-IsReport site.team_id scan (previous_score site.id scan tables.db) stored,
      )

-- For a scan that is canceled the aggregator changes no row of a scan or a site and sends nothing.
pub aggregate_processor-canceled :
    (round : Rounding) (sql_now js_now : ℕ) (select_checks : ℕ → Checks → List ScanCheckRow)
    (lab : Option LabCwv) (crux : Option CruxData) (scan : ℕ) (tables : Tables) (row : ScanRow)
    → find (has_id scan) tables.db.scans ≡ some row
    → is_canceled row.status ≡ true
    → let (after, sent) =
        aggregate_processor round sql_now js_now select_checks lab crux scan tables in
      (after.db ≡ tables.db) × (sent ≡ ok [])
unfolding aggregate_processor finish_scan
aggregate_processor-canceled round sql_now js_now select_checks lab crux scan tables row e off =
    elim (Option-cases (load_scan_site scan tables.db)) [
      | inl gone ↦ rw (gone, aggregate_processor) (refl, refl)
      | inr (site, l) ↦ rw (l, aggregate_processor, e, off) (rw off (refl, refl))
    ]
