-- ===== src/Schedule/Laws.antt =====
-- What a round of the scheduler guarantees: no site is scanned twice at once, each started scan
-- costs one credit and is enqueued, and no handled site is due again at once.
use scan_pal.Common.{
  ℕ, ◌+◌, ◌≤◌, ◌<◌, ◌≡◌, refl, Option, none, some, List, [], ◌∷◌, Bool, true, false, arith, ◌==◌,
  if◌then◌else◌, exists, count, length, All, count-append, count-none_of_exists, length-snoc,
  Bool-cases, inl, inr,
}
use scan_pal.Billing.Ledger.{Ledger, Clock, SpendInput, log_spend, reset_row}
use scan_pal.Billing.Ledger.Copy.{ScheduleOutcome, done, limit_error, spend_schedule_credit}
use scan_pal.Schedule.Next.{compute_next_scan_at-future}
use scan_pal.Schedule.Due.{
  queued, ScanStatus, set_site_scan_state, first_round, count_due, enqueue, credit_skip,
  after_spend, SiteRow, ScanRow, DueSite, Db, Round, is_active_for, set_next_scan, process_site,
  process_sites, due_sites, process_due_sites, Action, skip_actions, enqueue_actions,
}

-- At most one scan of each site is queued or running.
abbrev pub IsExclusive : List ScanRow → Type 0
IsExclusive scans = (site : ℕ) → count (is_active_for site) scans ≤ 1

process_site-IsExclusive :
    (clock : Clock) (site : DueSite) (r : Round)
    → IsExclusive r.db.scans
    → IsExclusive (process_site clock site r).db.scans
unfolding process_site
process_site-IsExclusive clock site r h u =
    elim (Bool-cases (exists (is_active_for site.id) r.db.scans)) [
      | inl busy ↦ ground (arith, h u)
      | inr free ↦ ground (
        arith,
        h u,
        count-none_of_exists (is_active_for site.id) r.db.scans free,
        count-append (is_active_for u) r.db.scans (
            record {
              id = r.db.next_scan_id;
              site_id = site.id;
              status = queued;
              scheduled_for = some site.next_scan_at;
            }
            ∷ []),
      )
    ]

process_sites-IsExclusive :
    (clock : Clock) (sites : List DueSite) (r : Round)
    → IsExclusive r.db.scans
    → IsExclusive (process_sites clock sites r).db.scans
unfolding process_sites
process_sites-IsExclusive clock [] r h = h
process_sites-IsExclusive clock (site ∷ sites) r h =
    process_sites-IsExclusive clock sites (process_site clock site r)
      (process_site-IsExclusive clock site r h)

-- If no site has two scans queued or running before a round, none has two after it.
pub process_due_sites-IsExclusive :
    (clock : Clock) (locked : ℕ → Bool) (db : Db)
    → IsExclusive db.scans
    → IsExclusive (process_due_sites clock locked db).0.scans
unfolding process_due_sites
process_due_sites-IsExclusive clock locked db h =
    process_sites-IsExclusive clock (due_sites clock.sql_now locked db.sites) _ h

spend_schedule_credit-logs :
    (clock : Clock) (input : SpendInput) (db : Ledger)
    → length (spend_schedule_credit clock input db).0.transactions
      ≡ (elim (spend_schedule_credit clock input db).1 [ done ↦ 1 | limit_error u l ↦ 0 ])
        + length db.transactions
unfolding spend_schedule_credit reset_row
spend_schedule_credit-logs clock input db =
    ground (arith, length-snoc db.transactions (log_spend input))

-- The books of a round: started scans, spent credits, new scans and enqueued scans are equally
-- many, and skipped sites are notified of.
pub record IsBalanced (r₀ r : Round) : Type 0 where
  pub scans :
      length r.db.scans + length r₀.result.started ≡ length r₀.db.scans + length r.result.started
  pub credits :
      length r.db.ledger.transactions + length r₀.result.started
      ≡ length r₀.db.ledger.transactions + length r.result.started
  pub enqueued :
      length r.queue + length r₀.result.started ≡ length r₀.queue + length r.result.started
  pub skipped :
      length r.skipped_runs + length r₀.result.credit_skipped
      ≡ length r₀.skipped_runs + length r.result.credit_skipped

process_site-IsBalanced :
    (clock : Clock) (site : DueSite) (r : Round) → IsBalanced r (process_site clock site r)
unfolding process_site
process_site-IsBalanced clock site r =
    let input : SpendInput = record {
      team_id = site.team_id;
      reason = "schedule";
      scan_id = none;
    } in
    let logs = spend_schedule_credit-logs clock input r.db.ledger in
    record {
      scans = grind (arith, length-snoc);
      credits = grind (arith, length-snoc);
      enqueued = grind (arith, length-snoc);
      skipped = grind (arith, length-snoc);
    }

process_sites-IsBalanced :
    (clock : Clock) (sites : List DueSite) (r₀ r : Round)
    → IsBalanced r₀ r
    → IsBalanced r₀ (process_sites clock sites r)
unfolding process_sites
process_sites-IsBalanced clock [] r₀ r b = b
process_sites-IsBalanced clock (site ∷ sites) r₀ r b =
    let turn = process_site-IsBalanced clock site r in
    process_sites-IsBalanced clock sites r₀ (process_site clock site r) (omega arith)

abbrev pub is_enqueue : Action → Bool
is_enqueue (enqueue id) = true
is_enqueue (credit_skip t s n) = false

abbrev pub is_credit_skip : Action → Bool
is_credit_skip (credit_skip t s n) = true
is_credit_skip (enqueue id) = false

count-skip_actions :
    (ss : List DueSite)
    → (count is_credit_skip (skip_actions ss) ≡ length ss)
      × (count is_enqueue (skip_actions ss) ≡ 0)
count-skip_actions [] = (refl, refl)
count-skip_actions (s ∷ ss) = ground (arith, count-skip_actions ss)

count-enqueue_actions :
    (runs : List (DueSite × ℕ))
    → (count is_enqueue (enqueue_actions runs) ≡ length runs)
      × (count is_credit_skip (enqueue_actions runs) ≡ 0)
count-enqueue_actions [] = (refl, refl)
count-enqueue_actions ((s, id) ∷ runs) = ground (arith, count-enqueue_actions runs)

-- The books of a scheduler round balance: the scans that it inserts, the credits that it logs and
-- the scans that it enqueues are as many as the sites that it reports as started, and it notifies
-- of as many credit skips as it reports.
pub process_due_sites-balanced :
    (clock : Clock) (locked : ℕ → Bool) (db : Db)
    → let (db', result, actions) = process_due_sites clock locked db in
      (length db'.scans ≡ length db.scans + length result.started)
      × (length db'.ledger.transactions ≡ length db.ledger.transactions + length result.started)
      × (count is_enqueue actions ≡ length result.started)
      × (count is_credit_skip actions ≡ length result.credit_skipped)
unfolding process_due_sites
process_due_sites-balanced clock locked db =
    let due = due_sites clock.sql_now locked db.sites in
    let start = first_round (count_due due) db in
    let r = process_sites clock due start in
    let b =
      process_sites-IsBalanced clock due start start
        (record { scans = refl; credits = refl; enqueued = refl; skipped = refl }) in
    let s = count-skip_actions r.skipped_runs in
    let e = count-enqueue_actions r.queue in
    (
      omega (arith, b.scans),
      omega (arith, b.credits),
      omega (
        arith,
        b.enqueued,
        s.1,
        e.0,
        count-append is_enqueue (skip_actions r.skipped_runs) (enqueue_actions r.queue),
      ),
      omega (
        arith,
        b.skipped,
        s.0,
        e.1,
        count-append is_credit_skip (skip_actions r.skipped_runs) (enqueue_actions r.queue),
      ),
    )

-- The site's next run lies after `now`.
abbrev pub IsFuture : ℕ → Option ℕ → Type 0
IsFuture now none = ⊥
IsFuture now (some t) = now < t

abbrev pub has_id : ℕ → List DueSite → Bool
has_id id = exists (λ (d : DueSite). d.id == id)

-- The rows of the handled sites have their next run after `now`.
abbrev pub IsPlanned : ℕ → List DueSite → List SiteRow → Type 0
IsPlanned now ds = All (λ (s : SiteRow). has_id s.id ds ≡ true → IsFuture now s.next_scan_at)

planned_row :
    (now next : ℕ) (d : DueSite) (ds : List DueSite) (s : SiteRow) (b : Bool)
    → (s.id == d.id) ≡ b
    → now < next
    → (has_id s.id ds ≡ true → IsFuture now s.next_scan_at)
    → has_id (if b then record s { next_scan_at = some next } else s).id (d ∷ ds) ≡ true
    → IsFuture now (if b then record s { next_scan_at = some next } else s).next_scan_at
planned_row now next d ds s true e l h m = l
planned_row now next d ds s false e l h m = h (ground arith)

set_next_scan-IsPlanned :
    (now next : ℕ) (d : DueSite) (ds : List DueSite) (sites : List SiteRow)
    → now < next
    → IsPlanned now ds sites
    → IsPlanned now (d ∷ ds) (set_next_scan next d.id sites)
set_next_scan-IsPlanned now next d ds [] l h = tt
set_next_scan-IsPlanned now next d ds (s ∷ sites) l (h, hs) = (
  planned_row now next d ds s (s.id == d.id) refl l h,
  set_next_scan-IsPlanned now next d ds sites l hs,
)

set_site_scan_state-IsPlanned :
    (now sql_now site scan : ℕ) (status : ScanStatus) (ds : List DueSite) (sites : List SiteRow)
    → IsPlanned now ds sites
    → IsPlanned now ds (set_site_scan_state sql_now site scan status sites)
set_site_scan_state-IsPlanned now sql_now site scan status ds [] h = tt
set_site_scan_state-IsPlanned now sql_now site scan status ds (s ∷ sites) (h, hs) = (
  elim (Bool-cases (s.id == site)) [ inl e ↦ rw e h | inr e ↦ rw e h ],
  set_site_scan_state-IsPlanned now sql_now site scan status ds sites hs,
)

after_spend-IsPlanned :
    (clock : Clock) (next : ℕ) (site : DueSite) (ds : List DueSite) (o : Ledger × ScheduleOutcome)
    (r : Round)
    → clock.js_now < next
    → IsPlanned clock.js_now ds r.db.sites
    → IsPlanned clock.js_now (site ∷ ds) (after_spend clock next site o r).db.sites
after_spend-IsPlanned clock next site ds (ledger, done) r l h =
    set_next_scan-IsPlanned clock.js_now next site ds _ l (
      set_site_scan_state-IsPlanned clock.js_now clock.sql_now site.id r.db.next_scan_id queued ds
        r.db.sites h)
after_spend-IsPlanned clock next site ds (ledger, limit_error u k) r l h =
    set_next_scan-IsPlanned clock.js_now next site ds _ l h

process_site-IsPlanned :
    (clock : Clock) (site : DueSite) (ds : List DueSite) (r : Round)
    → IsPlanned clock.js_now ds r.db.sites
    → IsPlanned clock.js_now (site ∷ ds) (process_site clock site r).db.sites
unfolding process_site
process_site-IsPlanned clock site ds r h =
    let later =
      compute_next_scan_at-future site.scan_frequency (some site.next_scan_at) clock.js_now in
    elim (Bool-cases (exists (is_active_for site.id) r.db.scans)) [
      | inl busy ↦ rw busy (set_next_scan-IsPlanned clock.js_now _ site ds r.db.sites later h)
      | inr free ↦ rw free (after_spend-IsPlanned clock _ site ds _ r later h)
    ]

process_sites-IsPlanned :
    (clock : Clock) (sites ds : List DueSite) (r : Round)
    → IsPlanned clock.js_now ds r.db.sites
    → (all : List DueSite) × ((id : ℕ) → has_id id sites ≡ true → has_id id all ≡ true)
      × ((id : ℕ) → has_id id ds ≡ true → has_id id all ≡ true)
      × IsPlanned clock.js_now all (process_sites clock sites r).db.sites
unfolding process_sites
process_sites-IsPlanned clock [] ds r h = (ds, λ id e. cc, λ id e. e, h)
process_sites-IsPlanned clock (site ∷ sites) ds r h =
    let (all, new, old, planned) =
      process_sites-IsPlanned clock sites (site ∷ ds) (process_site clock site r)
        (process_site-IsPlanned clock site ds r h) in
    (all, λ id e. ground (arith, new id, old id), λ id e. old id (ground arith), planned)

none-IsPlanned : (now : ℕ) (sites : List SiteRow) → IsPlanned now [] sites
none-IsPlanned now [] = tt
none-IsPlanned now (s ∷ sites) = (λ e. cc, none-IsPlanned now sites)

weaken-IsPlanned :
    (now : ℕ) (ds all : List DueSite) (sites : List SiteRow)
    → ((id : ℕ) → has_id id ds ≡ true → has_id id all ≡ true)
    → IsPlanned now all sites
    → IsPlanned now ds sites
weaken-IsPlanned now ds all [] sub h = tt
weaken-IsPlanned now ds all (s ∷ sites) sub (h, hs) =
    (λ e. h (sub s.id e), weaken-IsPlanned now ds all sites sub hs)

-- After a round every site that it picked as due has its next run in the future, whether its scan
-- was started, was skipped for lack of credits or overlapped with a running one.
pub process_due_sites-IsPlanned :
    (clock : Clock) (locked : ℕ → Bool) (db : Db)
    → IsPlanned clock.js_now
        (due_sites clock.sql_now locked db.sites)
        (process_due_sites clock locked db).0.sites
unfolding process_due_sites
process_due_sites-IsPlanned clock locked db =
    let due = due_sites clock.sql_now locked db.sites in
    let (all, new, old, planned) =
      process_sites-IsPlanned clock due [] (first_round (count_due due) db)
        (none-IsPlanned clock.js_now db.sites) in
    weaken-IsPlanned clock.js_now due all _ new planned
