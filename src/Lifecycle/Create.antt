-- ===== src/Lifecycle/Create.antt =====
-- apps/web/lib/scans-core.ts: starting and canceling a scan, and the schedule of a site. Each is a
-- transaction: an error rolls every statement back, the credit that was spent included.
use scan_pal.Common.{
  ℕ, suc, Option, none, some, List, [], ◌∷◌, ◌++◌, Bool, false, ◌&&◌, not, ◌==◌, if◌then◌else◌,
  exists, find, update,
}
use scan_pal.Billing.Ledger.{
  Ledger, Clock, SpendOutcome, spent, limit_error, spend_credit, refund_credit,
}
use scan_pal.Schedule.Due.{ScanStatus, queued, canceled}
use scan_pal.Schedule.Next.{Frequency, next09_utc}
use scan_pal.Lifecycle.Store.{
  ScanTrigger, other, ScanRow, SiteRow, Db, not_found, overlap, not_cancelable, credit_limit,
  Result, ok, error, has_id, runs_for, is_active, set_site_scan_state,
}

-- The optional `workspaceId`: not given, null, or a workspace.
pub data Scope : Type 0 where
  team_wide : Scope
  within : Option ℕ → Scope

-- `workspace_id = $3`, which no row meets when $3 is null.
abbrev pub in_workspace : Option ℕ → Option ℕ → Bool
in_workspace none site = false
in_workspace (some w) none = false
in_workspace (some w) (some v) = v == w

abbrev pub is_in_scope : ℕ → Scope → SiteRow → Bool
is_in_scope team team_wide s = s.team_id == team
is_in_scope team (within w) s = s.team_id == team && in_workspace w s.workspace_id

abbrev pub is_own_site : ℕ → ℕ → Scope → SiteRow → Bool
is_own_site site team scope s = s.id == site && is_in_scope team scope s

pub record CreateInput : Type 0 where
  pub team_id : ℕ
  pub site_id : ℕ
  pub active_tests : Bool
  pub trigger : ScanTrigger
  pub scope : Scope

-- The row that `insert into scans` makes, with the columns' defaults.
abbrev pub new_scan : CreateInput → ℕ → ScanRow
new_scan input id = record {
  id = id;
  site_id = input.site_id;
  status = queued;
  progress = 0;
  progress_details = none;
  score = none;
  findings = other none;
  category_scores = none;
  diff = none;
  active_tests = input.active_tests;
  trigger = input.trigger;
  completed_at = none;
}

abbrev pub insert_scan : Clock → CreateInput → Db → Db
insert_scan clock input db = record db {
  sites = set_site_scan_state clock.sql_now input.site_id db.next_scan_id queued none db.sites;
  scans = db.scans ++ new_scan input db.next_scan_id ∷ [];
  next_scan_id = suc db.next_scan_id;
}

-- What follows `spendCredit`: the commit, or the rollback to `db`.
abbrev pub commit_scan : Db → Db → ScanRow → Ledger × SpendOutcome → Db × Result ScanRow
commit_scan db inserted row (ledger, spent r) = (record inserted { ledger = ledger }, ok row)
commit_scan db inserted row (ledger, limit_error used limit) = (db, error (credit_limit used limit))

unfoldable pub create_manual_scan : Clock → CreateInput → Db → Db × Result ScanRow
create_manual_scan clock input db =
    if not (exists (is_own_site input.site_id input.team_id input.scope) db.sites)
    then (db, error not_found)
    else (if exists (runs_for input.site_id) db.scans
        then (db, error overlap)
        else commit_scan db (insert_scan clock input db) (new_scan input db.next_scan_id) (
            spend_credit clock
              (record { team_id = input.team_id; reason = "scan"; scan_id = some db.next_scan_id })
              db.ledger))

abbrev pub set_status : ℕ → ScanStatus → List ScanRow → List ScanRow
set_status id status = update (has_id id) (λ (row : ScanRow). record row { status = status })

-- The join of a scan with a site of the team.
abbrev pub is_own_scan : ℕ → ℕ → Scope → List SiteRow → ScanRow → Bool
is_own_scan id team scope sites row =
    row.id == id && exists (is_own_site row.site_id team scope) sites

abbrev pub cancel_found : Clock → ℕ → ℕ → Option ScanRow → Db → Db × Result ScanRow
cancel_found clock team id none db = (db, error not_found)
cancel_found clock team id (some row) db =
    if is_active row.status
    then (
      record db {
        scans = set_status id canceled db.scans;
        sites = set_site_scan_state clock.sql_now row.site_id id canceled none db.sites;
        ledger = (refund_credit team id db.ledger).0;
      },
      ok (record row { status = canceled }),
    )
    else (db, error not_cancelable)

unfoldable pub cancel_scan : Clock → (team id : ℕ) → Scope → Db → Db × Result ScanRow
cancel_scan clock team id scope db =
    cancel_found clock team id (find (is_own_scan id team scope db.sites) db.scans) db

abbrev next_of : Option Frequency → ℕ → Option ℕ
next_of none now = none
next_of (some f) now = some (next09_utc now)

unfoldable pub set_site_schedule :
    ℕ → (team site : ℕ) → Scope → Option Frequency → Db → Db × Result ℕ
set_site_schedule now team site scope frequency db =
    if exists (is_own_site site team scope) db.sites
    then (
      record db {
        sites =
            update (is_own_site site team scope)
              (λ (s : SiteRow). record s {
                scan_frequency = frequency;
                next_scan_at = next_of frequency now;
              })
              db.sites;
      },
      ok site,
    )
    else (db, error not_found)
