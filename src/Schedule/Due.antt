-- ===== src/Schedule/Due.antt =====
-- apps/scheduler/src/core.ts, `processDueSites`: one round of the scheduler. The tables are lists of
-- rows; new scans get the ids from `next_scan_id` on. `locked` says which rows another transaction
-- holds. An error of the database itself, after which the code rolls back, is not modelled.
use scan_pal.Common.{
  ℕ, suc, Option, none, some, List, [], ◌∷◌, ◌++◌, Bool, true, false, ◌&&◌, String, leb, ◌==◌,
  if◌then◌else◌, exists, update, take,
}
use scan_pal.Billing.Ledger.{Ledger, Clock}
use scan_pal.Billing.Ledger.Copy.{ScheduleOutcome, done, limit_error, spend_schedule_credit}
use scan_pal.Schedule.Next.{Frequency, compute_next_scan_at}

pub data ScanStatus : Type 0 where
  queued running completed failed canceled : ScanStatus

pub record SiteRow : Type 0 where
  pub id : ℕ
  pub team_id : ℕ
  pub url : String
  pub scan_frequency : Option Frequency  -- `none` is the text 'none'
  pub next_scan_at : Option ℕ
  pub last_scan_id : Option ℕ
  pub last_scan_status : Option ScanStatus
  pub last_scanned_at : Option ℕ

pub record ScanRow : Type 0 where
  pub id : ℕ
  pub site_id : ℕ
  pub status : ScanStatus
  pub scheduled_for : Option ℕ

pub record DueSite : Type 0 where
  pub id : ℕ
  pub team_id : ℕ
  pub url : String
  pub scan_frequency : Frequency
  pub next_scan_at : ℕ

pub record Db : Type 0 where
  pub sites : List SiteRow
  pub scans : List ScanRow
  pub ledger : Ledger
  pub next_scan_id : ℕ

pub record ProcessResult : Type 0 where
  pub due : ℕ
  pub started : List ℕ
  pub credit_skipped : List ℕ

-- The variables of the loop: `queued` holds the site and the new scan of each run.
pub record Round : Type 0 where
  pub db : Db
  pub result : ProcessResult
  pub queue : List (DueSite × ℕ)
  pub skipped_runs : List DueSite

abbrev due_of_parts : SiteRow → Option Frequency → Option ℕ → ℕ → List DueSite
due_of_parts s (some f) (some t) now =
    if leb t now
    then record {
      id = s.id;
      team_id = s.team_id;
      url = s.url;
      scan_frequency = f;
      next_scan_at = t;
    }
      ∷ []
    else []
due_of_parts s _ _ now = []

-- `scan_frequency != 'none' and next_scan_at <= now()`, as a list of at most one row.
abbrev due_of : ℕ → SiteRow → List DueSite
due_of now s = due_of_parts s s.scan_frequency s.next_scan_at now

-- `order by next_scan_at`.
abbrev insert_due : DueSite → List DueSite → List DueSite
insert_due d [] = d ∷ []
insert_due d (x ∷ xs) =
    if leb d.next_scan_at x.next_scan_at then d ∷ x ∷ xs else x ∷ insert_due d xs

all_due : ℕ → (ℕ → Bool) → List SiteRow → List DueSite
all_due now locked [] = []
all_due now locked (s ∷ sites) =
    let rest = all_due now locked sites in
    if locked s.id then rest else elim (due_of now s) [ [] ↦ rest | d ∷ ds ↦ insert_due d rest ]

-- `limit 50`.
unfoldable pub due_sites : ℕ → (ℕ → Bool) → List SiteRow → List DueSite
unfolding all_due
due_sites now locked sites = take 50 (all_due now locked sites)

abbrev pub is_active_scan : ScanStatus → Bool
is_active_scan queued = true
is_active_scan running = true
is_active_scan _ = false

-- `where site_id = $1 and status in ('queued', 'running')`.
abbrev pub is_active_for : ℕ → ScanRow → Bool
is_active_for site scan = scan.site_id == site && is_active_scan scan.status

-- `update sites set next_scan_at = $1 where id = $2`.
abbrev pub set_next_scan : ℕ → ℕ → List SiteRow → List SiteRow
set_next_scan next site =
    update (λ (s : SiteRow). s.id == site) (λ (s : SiteRow). record s { next_scan_at = some next })

abbrev pub set_site_scan_state : ℕ → ℕ → ℕ → ScanStatus → List SiteRow → List SiteRow
set_site_scan_state sql_now site scan status =
    update (λ (s : SiteRow). s.id == site)
      (λ (s : SiteRow). record s {
        last_scan_id = some scan;
        last_scan_status = some status;
        last_scanned_at = some sql_now;
      })

-- The insert of the scan and the two updates of the site, after the credit was spent.
abbrev pub start_scan : Clock → ℕ → DueSite → Ledger → Round → Round
start_scan clock next site ledger r =
    let id = r.db.next_scan_id in
    record {
      db = record {
        sites =
            set_next_scan next site.id
              (set_site_scan_state clock.sql_now site.id id queued r.db.sites);
        scans =
            r.db.scans
            ++ record {
              id = id;
              site_id = site.id;
              status = queued;
              scheduled_for = some site.next_scan_at;
            }
              ∷ [];
        ledger = ledger;
        next_scan_id = suc id;
      };
      result = record (r.result) { started = r.result.started ++ site.id ∷ [] };
      queue = r.queue ++ (site, id) ∷ [];
      skipped_runs = r.skipped_runs;
    }

-- The `catch` of a `CreditLimitError`.
abbrev pub skip_scan : ℕ → DueSite → Ledger → Round → Round
skip_scan next site ledger r = record {
  db = record (r.db) { sites = set_next_scan next site.id r.db.sites; ledger = ledger };
  result = record (r.result) { credit_skipped = r.result.credit_skipped ++ site.id ∷ [] };
  queue = r.queue;
  skipped_runs = r.skipped_runs ++ site ∷ [];
}

abbrev pub after_spend : Clock → ℕ → DueSite → Ledger × ScheduleOutcome → Round → Round
after_spend clock next site (ledger, done) r = start_scan clock next site ledger r
after_spend clock next site (ledger, limit_error u l) r = skip_scan next site ledger r

-- One turn of the loop over the due sites.
unfoldable pub process_site : Clock → DueSite → Round → Round
process_site clock site r =
    let next = compute_next_scan_at site.scan_frequency (some site.next_scan_at) clock.js_now in
    if exists (is_active_for site.id) r.db.scans
    then record r { db = record (r.db) { sites = set_next_scan next site.id r.db.sites } }
    else after_spend clock next site
        (spend_schedule_credit clock
          (record { team_id = site.team_id; reason = "schedule"; scan_id = none }) r.db.ledger)
        r

unfoldable pub process_sites : Clock → List DueSite → Round → Round
process_sites clock [] r = r
process_sites clock (site ∷ sites) r = process_sites clock sites (process_site clock site r)

-- What the round does to the world once the transaction is committed.
pub data Action : Type 0 where
  credit_skip : (team_id site_id : ℕ) → (site_name : String) → Action
  enqueue : (scan_id : ℕ) → Action

abbrev pub skip_actions : List DueSite → List Action
skip_actions [] = []
skip_actions (s ∷ ss) = credit_skip s.team_id s.id s.url ∷ skip_actions ss

abbrev pub enqueue_actions : List (DueSite × ℕ) → List Action
enqueue_actions [] = []
enqueue_actions ((s, id) ∷ runs) = enqueue id ∷ enqueue_actions runs

abbrev pub first_round : ℕ → Db → Round
first_round n db = record {
  db = db;
  result = record { due = n; started = []; credit_skipped = [] };
  queue = [];
  skipped_runs = [];
}

abbrev pub count_due : List DueSite → ℕ
count_due [] = 0
count_due (s ∷ ss) = suc (count_due ss)

unfoldable pub round_of : Clock → (ℕ → Bool) → Db → Round
round_of clock locked db =
    let due = due_sites clock.sql_now locked db.sites in
    process_sites clock due (first_round (count_due due) db)

unfoldable pub process_due_sites : Clock → (ℕ → Bool) → Db → Db × ProcessResult × List Action
unfolding round_of
process_due_sites clock locked db =
    let r = round_of clock locked db in
    (r.db, r.result, skip_actions r.skipped_runs ++ enqueue_actions r.queue)
