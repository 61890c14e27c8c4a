-- ===== src/Aggregate/Process.antt =====
-- apps/worker/src/queues/aggregate.ts, `createAggregateProcessor`, with the notifications of
-- packages/scan-core/src/notifications.ts: the last job of a scan, which gathers the findings, ends the
-- scan and reports it. The messages are those given to `notify`, in order; the name of a site in them
-- is left out. What `labCwvFromChecks` reads of the evidence, and the column `crux`, are arguments, and
-- so is the order in which the database returns the rows of the scan.
use scan_pal.Common.{
  ℕ, ◌+◌, ◌-◌, Option, none, some, List, [], ◌∷◌, ◌++◌, Bool, true, false, ◌&&◌, ◌||◌, not, str_eq,
  ◌==◌, if◌then◌else◌, ltb, leb, exists, find, select, length,
}
use scan_pal.Schedule.Due.{completed}
use scan_pal.Scan.Finding.{Finding, Severity, critical, high, medium, total}
use scan_pal.Scan.Rounding.{Rounding}
use scan_pal.Scan.Score.{category_scores_from_findings, overall_score_from_findings}
use scan_pal.Scan.Diff.{ScanDiff, count_at_or_above}
use scan_pal.Lifecycle.Store.{
  Payload, v1, other, ScanRow, SiteRow, Db, ScanTrigger, manual, Result, ok, error, is_canceled,
  has_id,
}
use scan_pal.Lifecycle.Finish.{finish_scan, earlier_scans}
use scan_pal.Notify.Hub.{NotificationType, scan_done, critical_finding, scan_diff, NotifyInput}
use scan_pal.Aggregate.Checks.{ScanCheckRow, Checks, valid, single, upsert_derived_finding}
use scan_pal.Aggregate.Build.{build_findings_from_checks}
use scan_pal.Aggregate.Crux.{
  LabCwv, CruxData, compute_crux_divergences, build_crux_divergence_finding,
}

pub record ScoreDrop : Type 0 where
  pub score_drop : ℕ
  pub previous_score : ℕ
  pub new_score : ℕ

pub record DiffCounts : Type 0 where
  pub new_count : ℕ
  pub resolved_count : ℕ
  pub regressed_count : ℕ
  pub new_high : ℕ
  pub regressed_high : ℕ
  pub drop : Option ScoreDrop

-- The payloads of the messages.
pub data EventPayload : Type 0 where
  of_score : ℕ → EventPayload
  of_criticals : ℕ → EventPayload
  of_diff : DiffCounts → EventPayload

abbrev pub Message : Type 0
Message = NotifyInput EventPayload

abbrev pub message : NotificationType → (team scan : ℕ) → EventPayload → Message
message type team scan payload = record {
  type = type;
  team_id = team;
  entity_id = scan;
  incident_id = none;
  payload = payload;
}

-- `loadScanSite`: the join.
unfoldable pub load_scan_site : ℕ → Db → Option SiteRow
load_scan_site scan db = elim (find (has_id scan) db.scans) [
  | none ↦ none
  | some row ↦ find (λ (s : SiteRow). s.id == row.site_id) db.sites
]

-- The first score, `order by created_at desc`.
abbrev pub first_score : List ScanRow → Option ℕ
first_score [] = none
first_score (row ∷ rows) = elim row.score [ none ↦ first_score rows | some s ↦ some s ]

unfoldable pub previous_score : (site scan : ℕ) → Db → Option ℕ
previous_score site scan db = first_score (earlier_scans site scan db.scans)

abbrev pub is_critical : Severity → Bool
is_critical critical = true
is_critical _ = false

abbrev pub criticals_of : Payload → ℕ
criticals_of (v1 items) = length (select (λ (f : Finding). is_critical f.severity) items)
criticals_of (other e) = 0

abbrev pub or_zero : Option ℕ → ℕ
or_zero none = 0
or_zero (some n) = n

unfoldable pub emit_scan_finished_notifications : (team scan : ℕ) → ScanRow → List Message
emit_scan_finished_notifications team scan row =
    let criticals = criticals_of row.findings in
    message scan_done team scan (of_score (or_zero row.score))
    ∷ (if ltb 0 criticals
        then message critical_finding team scan (of_criticals criticals) ∷ []
        else [])

-- A fall of 5 points at least.
unfoldable pub score_drop_of : (previous score : Option ℕ) → Option ScoreDrop
score_drop_of none score = none
score_drop_of (some p) none = none
score_drop_of (some p) (some s) =
    if leb (s + 5) p
    then some (record { score_drop = p - s; previous_score = p; new_score = s })
    else none

abbrev pub is_some : Option ScoreDrop → Bool
is_some none = false
is_some (some _) = true

abbrev pub is_manual : ScanTrigger → Bool
is_manual manual = true
is_manual _ = false

abbrev pub diff_counts : ScanDiff → Option ScoreDrop → DiffCounts
diff_counts d drop = record {
  new_count = total d.alert_new;
  resolved_count = total d.resolved;
  regressed_count = total d.alert_regressed;
  new_high = count_at_or_above d.alert_new high;
  regressed_high = count_at_or_above d.alert_regressed high;
  drop = drop;
}

abbrev pub has_new_or_regressed : ScanDiff → Bool
has_new_or_regressed d =
    ltb 0 (count_at_or_above d.alert_new medium)
    || ltb 0 (count_at_or_above d.alert_regressed medium)

abbrev pub alert_on : (team scan : ℕ) → Option ScoreDrop → ScanDiff → List Message
alert_on team scan drop d =
    if not (has_new_or_regressed d) && not (is_some drop)
    then []
    else message scan_diff team scan (of_diff (diff_counts d drop)) ∷ []

unfoldable pub alert_for : (team scan : ℕ) → (previous : Option ℕ) → ScanRow → List Message
unfolding score_drop_of
alert_for team scan previous row = if is_manual row.trigger then [] else elim row.diff [
  | none ↦ []
  | some d ↦ alert_on team scan (score_drop_of previous row.score) d
]

unfoldable pub emit_scan_diff_alert : (team site scan : ℕ) → ScanRow → Db → List Message
unfolding previous_score alert_for
emit_scan_diff_alert team site scan row db = alert_for team scan (previous_score site scan db) row

pub record Tables : Type 0 where
  pub db : Db
  pub checks : Checks

-- The row that is pushed.
abbrev pub derived_row : ℕ → Finding → ScanCheckRow
derived_row scan f = record {
  scan_id = scan;
  check_id = f.check_id;
  category = f.category;
  status = "warn";
  severity = some f.severity;
  finding = single (valid f);
  route_url = none;
}

-- The rows that the findings are built from: those of the database, less those of the derived check.
unfoldable pub replace_derived : ℕ → Finding → List ScanCheckRow → List ScanCheckRow
replace_derived scan f rows =
    select (λ (r : ScanCheckRow). not (str_eq r.check_id f.check_id)) rows
    ++ derived_row scan f ∷ []

unfoldable pub derive_crux :
    Option LabCwv → Option CruxData → ℕ → List ScanCheckRow → Checks → List ScanCheckRow × Checks
unfolding replace_derived
derive_crux lab crux scan rows checks = elim (compute_crux_divergences lab crux) [
  | [] ↦ (rows, checks)
  | _ ∷ _ ↦
      let f = build_crux_divergence_finding in
      (replace_derived scan f rows, upsert_derived_finding scan f checks)
]

-- What is sent when the scan has ended.
abbrev pub report : (team site scan : ℕ) → Db × Result ScanRow → Db × Result (List Message)
report team site scan (db, error e) = (db, error e)
report team site scan (db, ok row) = if is_canceled row.status then (db, ok []) else (
  db,
  ok (
      (if exists (λ (s : SiteRow). s.id == site) db.sites
        then emit_scan_finished_notifications team scan row
        else [])
      ++ emit_scan_diff_alert team site scan row db),
)

module _ (round : Rounding) where
  abbrev pub finish_with :
      (sql_now js_now team site scan : ℕ) → List Finding → Db → Db × Result (List Message)
  finish_with sql_now js_now team site scan items db = report team site scan (
      finish_scan sql_now js_now
        (record {
          scan_id = scan;
          site_id = site;
          status = completed;
          score = some (overall_score_from_findings round items);
          findings = v1 items;
          category_scores = some (category_scores_from_findings round items);
        })
        db)

  unfoldable pub aggregate_processor :
      (sql_now js_now : ℕ)
      → (select_checks : ℕ → Checks → List ScanCheckRow) → Option LabCwv
      → Option CruxData
      → (scan : ℕ) → Tables
      → Tables × Result (List Message)
  aggregate_processor sql_now js_now select_checks lab crux scan tables =
      elim (load_scan_site scan tables.db) [
        | none ↦ (tables, ok [])
        | some site ↦
            let (rows, checks) =
              derive_crux lab crux scan (select_checks scan tables.checks) tables.checks in
            let (db, sent) =
              finish_with sql_now js_now site.team_id site.id scan (build_findings_from_checks rows)
                tables.db in
            (record { db = db; checks = checks }, sent)
      ]
