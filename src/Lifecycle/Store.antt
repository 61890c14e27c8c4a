-- ===== src/Lifecycle/Store.antt =====
-- The tables `sites` and `scans` as the life of a scan sees them, beside the ledger of credits.
-- The rows of `scans` stand in the order of `created_at`, in which they are inserted. `crux` is
-- left out: nothing here reads it.
use scan_pal.Common.{
  ℕ, ap, ◌≡◌, refl, ◌∙◌, Option, none, some, List, Bool, true, false, String, ◌==◌, if◌then◌else◌,
  update, find, find-update, find-holds,
}
use scan_pal.Billing.Ledger.{Ledger}
use scan_pal.Schedule.Due.{ScanStatus, queued, running, completed, canceled}
use scan_pal.Schedule.Next.{Frequency}
use scan_pal.Scan.Finding.{Finding}
use scan_pal.Scan.Score.{CategoryScores}
use scan_pal.Scan.Diff.{ScanDiff}
use scan_pal.Scan.Progress.{ProgressDetails}

pub data ScanTrigger : Type 0 where
  manual schedule deploy : ScanTrigger

-- The column `findings`: a payload that `findingsPayloadSchema` accepts, or another object, such as
-- the default `{}` and the `{ error }` of a scan that failed.
pub data Payload : Type 0 where
  v1 : List Finding → Payload
  other : (error : Option String) → Payload

pub record ScanRow : Type 0 where
  pub id : ℕ
  pub site_id : ℕ
  pub status : ScanStatus
  pub progress : ℕ
  pub progress_details : Option ProgressDetails  -- `none` is the default `{}`
  pub score : Option ℕ
  pub findings : Payload
  pub category_scores : Option CategoryScores
  pub diff : Option ScanDiff  -- `none` is the default `{}`
  pub active_tests : Bool
  pub trigger : ScanTrigger
  pub completed_at : Option ℕ

pub record SiteRow : Type 0 where
  pub id : ℕ
  pub team_id : ℕ
  pub workspace_id : Option ℕ
  pub scan_frequency : Option Frequency  -- `none` is the text 'none'
  pub next_scan_at : Option ℕ
  pub last_scan_id : Option ℕ
  pub last_scan_status : Option ScanStatus
  pub last_scan_score : Option ℕ
  pub last_scanned_at : Option ℕ

pub record Db : Type 0 where
  pub sites : List SiteRow
  pub scans : List ScanRow
  pub ledger : Ledger
  pub next_scan_id : ℕ

-- `ScanError` and `CancelScanError`, and the error of `spendCredit`.
pub data ScanErrorCode : Type 0 where
  not_found overlap not_cancelable : ScanErrorCode
  credit_limit : (credits_used credits_limit : ℕ) → ScanErrorCode

pub data Result (A : Type 0) : Type 0 where
  ok : A → Result A
  error : ScanErrorCode → Result A

abbrev pub is_canceled : ScanStatus → Bool
is_canceled canceled = true
is_canceled _ = false

abbrev pub is_queued : ScanStatus → Bool
is_queued queued = true
is_queued _ = false

abbrev pub is_completed : ScanStatus → Bool
is_completed completed = true
is_completed _ = false

-- `status in ('queued', 'running')`.
abbrev pub is_active : ScanStatus → Bool
is_active queued = true
is_active running = true
is_active _ = false

abbrev pub has_id : ℕ → ScanRow → Bool
has_id id row = row.id == id

-- `site_id = $1 and status in ('queued', 'running')`.
abbrev pub runs_for : ℕ → ScanRow → Bool
runs_for site row = if row.site_id == site then is_active row.status else false

-- `coalesce($3, last_scan_score)`.
abbrev pub coalesce : {A : Type 0} → Option A → Option A → Option A
coalesce none old = old
coalesce (some x) old = some x

unfoldable pub set_site_scan_state :
    (now site scan : ℕ) → ScanStatus → (score : Option ℕ) → List SiteRow → List SiteRow
set_site_scan_state now site scan status score =
    update (λ (s : SiteRow). s.id == site)
      (λ (s : SiteRow). record s {
        last_scan_id = some scan;
        last_scan_status = some status;
        last_scan_score = coalesce score s.last_scan_score;
        last_scanned_at = some now;
      })

-- The row that is found after an update of the rows with its id.
pub find-update_id :
    (id : ℕ) (f : ScanRow → ScanRow) (scans : List ScanRow) (row : ScanRow)
    → ((r : ScanRow) → (f r).id ≡ r.id)
    → find (has_id id) scans ≡ some row
    → find (has_id id) (update (has_id id) f scans) ≡ some (f row)
find-update_id id f scans row same e =
    find-update (has_id id) (has_id id) f scans (λ r. ap (λ i. i == id) (same r))
    ∙ rw (e, find-holds (has_id id) scans row e) refl
