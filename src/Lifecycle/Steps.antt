-- ===== src/Lifecycle/Steps.antt =====
-- The steps of the life of a scan, one transaction at a time, in any order and any number. The
-- dispatcher's reading changes nothing, and its write is a step of a database in which the scan still
-- reads as it was read; what a write that comes too late does is in Torn.antt.
use scan_pal.Common.{ℕ, ◌≡◌, arith, Option, String, find}
use scan_pal.Billing.Ledger.{Clock}
use scan_pal.Schedule.Next.{Frequency}
use scan_pal.Scan.Finding.{Category}
use scan_pal.Scan.Rounding.{Rounding}
use scan_pal.Lifecycle.Store.{Db}
use scan_pal.Lifecycle.Create.{
  Scope, CreateInput, create_manual_scan, cancel_scan, is_own_scan, set_site_schedule,
}
use scan_pal.Lifecycle.Finish.{
  FinishScanInput, IsFinal, finish_scan, load_scan_site, mark_scan_failed,
}
use scan_pal.Lifecycle.Dispatch.{
  crawl, load_dispatch, write_progress_skeleton, advance_category_progress,
}
use scan_pal.Lifecycle.Sound.{
  IsSound, keep, create_manual_scan-IsSound, cancel_found-IsSound, finish_scan-IsSound,
  fail_at-IsSound, dispatched-IsSound, advance_category_progress-IsSound,
}

module _ (round : Rounding) where
  -- What may happen to the tables, one transaction at a time.
  pub data Step : Db → Db → Type 0 where
    created :
        (clock : Clock) (input : CreateInput) (db : Db)
        → Step db (create_manual_scan clock input db).0
    withdrawn :
        (clock : Clock) (team id : ℕ) (scope : Scope) (db : Db)
        → Step db (cancel_scan clock team id scope db).0
    rescheduled :
        (now team site : ℕ) (scope : Scope) (frequency : Option Frequency) (db : Db)
        → Step db (set_site_schedule now team site scope frequency db).0
    dispatched :
        (scan : ℕ) (totals : Category → Option ℕ) (now : ℕ) (db : Db)
        → load_dispatch scan db ≡ crawl
        → Step db (write_progress_skeleton scan totals now db)
    advanced :
        (scan : ℕ) (check : String) (now : ℕ) (db : Db)
        → Step db (advance_category_progress round scan check now db)
    ended :
        (sql_now js_now : ℕ) (input : FinishScanInput) (db : Db)
        → IsFinal input.status
        → Step db (finish_scan sql_now js_now input db).0
    broken :
        (sql_now js_now scan : ℕ) (message : String) (db : Db)
        → Step db (mark_scan_failed sql_now js_now scan message db)

  pub data Reach (start : Db) : Db → Type 0 where
    here : Reach start start
    next : {db db' : Db} → Reach start db → Step db db' → Reach start db'

  Step-IsSound : {db db' : Db} → Step db db' → IsSound db → IsSound db'
  unfolding cancel_scan set_site_schedule mark_scan_failed
  Step-IsSound (Step.created clock input db) s = create_manual_scan-IsSound clock input db s
  Step-IsSound (Step.withdrawn clock team id scope db) s =
      cancel_found-IsSound clock team id (find (is_own_scan id team scope db.sites) db.scans) db s
  Step-IsSound (Step.rescheduled now team site scope frequency db) s =
      keep db (set_site_schedule now team site scope frequency db).0 (ground arith)
        (λ id. ground arith) (λ u. ground arith) s
  Step-IsSound (Step.dispatched scan totals now db load) s =
      dispatched-IsSound scan totals now db load s
  Step-IsSound (Step.advanced scan check now db) s =
      advance_category_progress-IsSound round scan check now db s
  Step-IsSound (Step.ended sql_now js_now input db f) s =
      finish_scan-IsSound sql_now js_now input db f s
  Step-IsSound (Step.broken sql_now js_now scan message db) s =
      fail_at-IsSound sql_now js_now scan message (load_scan_site scan db) db s

  -- In every database that any sequence of steps reaches from a sound one, scan ids are a key,
  -- the ids that are still to come are free, and no site has two scans queued or running: the
  -- steps are new scans, cancellations, schedules, dispatches, progress, ends with a final
  -- status, and failures, and the dispatcher writes only to a scan that is still queued, as it
  -- read it.
  pub Reach-IsSound : {db db' : Db} → Reach db db' → IsSound db → IsSound db'
  Reach-IsSound here s = s
  Reach-IsSound (next r step) s = Step-IsSound step (Reach-IsSound r s)
