-- ===== src/Lifecycle/Finish.antt =====
-- The end of a scan: packages/scan-core/src/finish-scan.ts, with the statuses that it carries over
-- (finding-status.ts) and the diff that it stores (scan-diff.ts), and the two callers in
-- apps/worker/src/queues/aggregate.ts. A payload that one function has built is not parsed again.
use scan_pal.Common.{
  ℕ, Option, none, some, List, [], ◌∷◌, Bool, true, false, ◌&&◌, ◌||◌, not, String, str_eq, ◌==◌,
  if◌then◌else◌, exists, find, select, take, update, map,
}
use mathlib.Core.List.{reverse}
use scan_pal.Schedule.Due.{ScanStatus, completed, failed}
use scan_pal.Scan.Finding.{Finding, Snooze, until, next_scan}
use scan_pal.Scan.Score.{CategoryScores}
use scan_pal.Scan.Diff.{ScanDiff, empty_scan_diff, is_clean_scan, compute_scan_diff}
use scan_pal.Scan.CarryOver.{apply_finding_status_carry_over}
use scan_pal.Lifecycle.Store.{
  Payload, v1, other, ScanRow, SiteRow, Db, not_found, Result, ok, error, is_completed, is_canceled,
  has_id, set_site_scan_state,
}

-- `site_id = $1 and id != $2 and status = 'completed'`.
abbrev pub is_earlier : (site scan : ℕ) → ScanRow → Bool
is_earlier site scan row = row.site_id == site && not (row.id == scan) && is_completed row.status

-- `order by created_at desc`.
abbrev pub earlier_scans : (site scan : ℕ) → List ScanRow → List ScanRow
earlier_scans site scan scans = reverse (select (is_earlier site scan) scans)

abbrev pub carry_payload : List Finding → List ScanRow → Payload
carry_payload items [] = v1 items
carry_payload items (row ∷ rows) = elim row.findings [
  | v1 previous ↦ v1 (apply_finding_status_carry_over items (some previous))
  | other e ↦ v1 items
]

unfoldable pub carry_over_finding_statuses : (scan site : ℕ) → Payload → List ScanRow → Payload
carry_over_finding_statuses scan site (other e) scans = other e
carry_over_finding_statuses scan site (v1 items) scans =
    carry_payload items (earlier_scans site scan scans)

-- The loop over the rows of `findCleanSnapshot`.
unfoldable pub first_clean : List ScanRow → Option (List Finding)
first_clean [] = none
first_clean (row ∷ rows) = elim row.findings [
  | v1 items ↦ if is_clean_scan row.score items then some items else first_clean rows
  | other e ↦ first_clean rows
]

unfoldable pub find_clean_snapshot : (site scan : ℕ) → List ScanRow → Option (List Finding)
unfolding first_clean
find_clean_snapshot site scan scans = first_clean (take 20 (earlier_scans site scan scans))

abbrev pub has_string : String → List String → Bool
has_string s = exists (str_eq s)

abbrev pub is_next_scan : Option Snooze → Bool
is_next_scan (some next_scan) = true
is_next_scan (some (until t)) = false
is_next_scan none = false

-- `finding.snooze_until === "next-scan" || regressed.has(finding.id)`.
abbrev pub needs_rewrite : List String → Finding → Bool
needs_rewrite regressed f = is_next_scan f.snooze_until || has_string f.id regressed

abbrev pub rewrite : List String → Finding → Finding
rewrite regressed f = record f {
  regressed = if has_string f.id regressed then true else f.regressed;
  snooze_until = if is_next_scan f.snooze_until then none else f.snooze_until;
}

unfoldable pub rewrite_items : List String → List Finding → List Finding
rewrite_items regressed items =
    if exists (needs_rewrite regressed) items then map (rewrite regressed) items else items

unfoldable pub compute_and_write_scan_diff :
    (now site scan : ℕ) → Payload → List ScanRow → Payload × Option ScanDiff
unfolding rewrite_items
compute_and_write_scan_diff now site scan (other e) scans = (other e, none)
compute_and_write_scan_diff now site scan (v1 items) scans =
    let diff = compute_scan_diff now items (find_clean_snapshot site scan scans) in
    (v1 (rewrite_items diff.regressed_finding_ids items), some diff)

abbrev pub or_empty_diff : Option ScanDiff → ScanDiff
or_empty_diff none = empty_scan_diff
or_empty_diff (some d) = d

pub record FinishScanInput : Type 0 where
  pub scan_id : ℕ
  pub site_id : ℕ
  pub status : ScanStatus
  pub score : Option ℕ
  pub findings : Payload
  pub category_scores : Option CategoryScores

-- The type "completed" | "failed" of `status`.
abbrev pub IsFinal : ScanStatus → Type 0
IsFinal completed = Unit
IsFinal failed = Unit
IsFinal _ = ⊥

-- The findings and the diff that are stored.
unfoldable pub outcome_of : ℕ → FinishScanInput → List ScanRow → Payload × ScanDiff
outcome_of now input scans =
    let findings = carry_over_finding_statuses input.scan_id input.site_id input.findings scans in
    if is_completed input.status
    then (let (final, diff) =
          compute_and_write_scan_diff now input.site_id input.scan_id findings scans in
        (final, or_empty_diff diff))
    else (findings, empty_scan_diff)

-- The columns that `update scans` sets.
abbrev pub finished : ℕ → FinishScanInput → Payload × ScanDiff → ScanRow → ScanRow
finished now input (findings, diff) row = record row {
  status = input.status;
  progress = 100;
  score = input.score;
  findings = findings;
  category_scores = input.category_scores;
  diff = some diff;
  completed_at = some now;
}

-- `updated.rows[0]` of `returning *`; there is one, since the row is locked.
abbrev pub written_row : Option ScanRow → Result ScanRow
written_row none = error not_found
written_row (some row) = ok row

abbrev pub finish_found :
    (sql_now js_now : ℕ) → FinishScanInput → Option ScanRow → Db → Db × Result ScanRow
finish_found sql_now js_now input none db = (db, error not_found)
finish_found sql_now js_now input (some row) db =
    if is_canceled row.status
    then (db, ok row)
    else (let outcome = outcome_of js_now input db.scans in
        let scans = update (has_id input.scan_id) (finished sql_now input outcome) db.scans in
        (
          record db {
            scans = scans;
            sites =
                set_site_scan_state sql_now input.site_id input.scan_id input.status input.score
                  db.sites;
          },
          written_row (find (has_id input.scan_id) scans),
        ))

unfoldable pub finish_scan : (sql_now js_now : ℕ) → FinishScanInput → Db → Db × Result ScanRow
unfolding outcome_of
finish_scan sql_now js_now input db =
    finish_found sql_now js_now input (find (has_id input.scan_id) db.scans) db

-- `loadScanSite`, the join that gives the site of a scan.
abbrev pub load_scan_site : ℕ → Db → Option ℕ
load_scan_site scan db = elim (find (has_id scan) db.scans) [
  | none ↦ none
  | some row ↦
      if exists (λ (s : SiteRow). s.id == row.site_id) db.sites then some row.site_id else none
]

abbrev pub fail_at : (sql_now js_now scan : ℕ) → String → Option ℕ → Db → Db
fail_at sql_now js_now scan message none db = db
fail_at sql_now js_now scan message (some site) db =
    (finish_scan sql_now js_now
      (record {
        scan_id = scan;
        site_id = site;
        status = failed;
        score = none;
        findings = other (some message);
        category_scores = none;
      })
      db).0

unfoldable pub mark_scan_failed : (sql_now js_now scan : ℕ) → String → Db → Db
unfolding finish_scan
mark_scan_failed sql_now js_now scan message db =
    fail_at sql_now js_now scan message (load_scan_site scan db) db
