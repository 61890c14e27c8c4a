-- ===== src/Lifecycle/Dispatch.antt =====
-- apps/worker/src/queues/dispatcher.ts and packages/scan-core/src/progress.ts: the dispatcher loads a
-- scan and writes its progress skeleton in two separate statements, and the workers advance the
-- progress in a transaction each. The totals come from the registry of checks, a parameter.
use scan_pal.Common.{
  ℕ, Option, none, some, List, Bool, false, String, ◌==◌, ◌||◌, not, leb, if◌then◌else◌, exists,
  find, update,
}
use scan_pal.Schedule.Due.{running}
use scan_pal.Scan.Finding.{Category}
use scan_pal.Scan.Rounding.{Rounding}
use scan_pal.Scan.Progress.{
  ProgressDetails, CategoryProgress, initial_progress_details, advance_progress_details,
  overall_progress, is_done,
}
use scan_pal.Scan.Catalog.{CheckCatalogEntry, check_by_id}
use scan_pal.Lifecycle.Store.{ScanRow, SiteRow, Db, has_id, is_queued}

-- What the dispatcher decides from the row that it has loaded.
pub data Dispatched : Type 0 where
  no_crawl : Dispatched
  crawl : Dispatched

abbrev decide : Option ScanRow → List SiteRow → Dispatched
decide none sites = no_crawl
decide (some row) sites =
    if exists (λ (s : SiteRow). s.id == row.site_id) sites
    then (if is_queued row.status then crawl else no_crawl)
    else no_crawl

unfoldable pub load_dispatch : ℕ → Db → Dispatched
load_dispatch scan db = decide (find (has_id scan) db.scans) db.sites

-- `set status = 'running', progress = 0, progress_details = $2 where id = $1`.
unfoldable pub write_progress_skeleton : ℕ → (Category → Option ℕ) → ℕ → Db → Db
write_progress_skeleton scan totals now db = record db {
  scans =
      update (has_id scan)
        (λ (row : ScanRow). record row {
          status = running;
          progress = 0;
          progress_details = some (initial_progress_details totals now);
        })
        db.scans;
}

abbrev pub after_load : Dispatched → ℕ → (Category → Option ℕ) → ℕ → Db → Db
after_load no_crawl scan totals now db = db
after_load crawl scan totals now db = write_progress_skeleton scan totals now db

unfoldable pub update_scan_progress : ℕ → ℕ → ProgressDetails → Db → Db
update_scan_progress scan progress details db = record db {
  scans =
      update (has_id scan)
        (λ (row : ScanRow). record row { progress = progress; progress_details = some details })
        db.scans;
}

-- Whether `advanceProgressDetails` makes a new object.
abbrev pub can_move : Option CategoryProgress → Bool
can_move none = false
can_move (some cat) = not (is_done cat.status || leb cat.total cat.done)

abbrev pub moves_entry : Option CheckCatalogEntry → ProgressDetails → Bool
moves_entry none details = false
moves_entry (some entry) details = can_move (details.categories entry.category)

unfoldable pub moves : String → ProgressDetails → Bool
moves check details = moves_entry (check_by_id check) details

module _ (round : Rounding) where
  abbrev advance_details : String → ℕ → Option ProgressDetails → ScanRow → ScanRow
  advance_details check now none row = row
  advance_details check now (some details) row =
      if moves check details
      then (let next = advance_progress_details round details check now in
          record row { progress = overall_progress round next; progress_details = some next })
      else row

  unfoldable pub advance_row : String → ℕ → ScanRow → ScanRow
  unfolding moves
  advance_row check now row = advance_details check now row.progress_details row

  unfoldable pub advance_category_progress : ℕ → String → ℕ → Db → Db
  unfolding advance_row
  advance_category_progress scan check now db = record db {
    scans = update (has_id scan) (advance_row check now) db.scans;
  }
