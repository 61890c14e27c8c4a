-- ===== src/Lifecycle/Credit.antt =====
-- Starting and canceling a scan: what they do to the credits.
use scan_pal.Common.{
  ℕ, ap, sym, ◌-◌, ◌≡◌, refl, arith, ◌∙◌, Option, none, some, List, [], ◌∷◌, ◌++◌, true, false,
  ◌==◌, ==_self, exists, find, count, Bool-cases, inl, inr, find-snoc, exists-update_same,
  count-and_le,
}
use mathlib.Core.Option
use mathlib.Core.Path.{subst}
use scan_pal.Billing.Ledger.{
  SubscriptionState, Clock, Ledger, SpendOutcome, SpendInput, SpendResult, spent, limit_error,
  spend_credit, is_refund_of, log_spend,
}
use scan_pal.Billing.Ledger.Spend.{spend_credit-IsCharged}
use scan_pal.Billing.Ledger.Refund.{refund_credit-spend_credit}
use scan_pal.Schedule.Due.{queued, canceled}
use scan_pal.Lifecycle.Store.{
  ScanRow, SiteRow, Db, ok, has_id, runs_for, is_active, set_site_scan_state,
}
use scan_pal.Lifecycle.Create.{
  Scope, team_wide, within, CreateInput, new_scan, insert_scan, commit_scan, create_manual_scan,
  cancel_scan, is_own_scan, is_own_site,
}
use scan_pal.Lifecycle.Sound.{IsSound}

abbrev pub spend_input : CreateInput → Db → SpendInput
spend_input input db = record {
  team_id = input.team_id;
  reason = "scan";
  scan_id = some db.next_scan_id;
}

-- What a scan that was started leaves.
pub record IsStarted (clock : Clock) (input : CreateInput) (db db' : Db) (row : ScanRow)
    : Type 0 where
  pub result : SpendResult
  pub paid : spend_credit clock (spend_input input db) db.ledger ≡ (db'.ledger, spent result)
  pub made : row ≡ new_scan input db.next_scan_id
  pub inserted : db'.scans ≡ db.scans ++ row ∷ []
  pub own : exists (is_own_site input.site_id input.team_id input.scope) db'.sites ≡ true

is_own_site-set :
    (now scan : ℕ) (input : CreateInput) (sites : List SiteRow)
    → exists
        (is_own_site input.site_id input.team_id input.scope)
        (set_site_scan_state now input.site_id scan queued none sites)
      ≡ exists (is_own_site input.site_id input.team_id input.scope) sites
unfolding set_site_scan_state
is_own_site-set now scan input sites =
    exists-update_same (is_own_site input.site_id input.team_id input.scope)
      (λ (s : SiteRow). s.id == input.site_id) _ sites (λ s. own_same input.scope s)
  where
    own_same :
        (scope : Scope) (s : SiteRow)
        → is_own_site input.site_id input.team_id scope (record s {
          last_scan_id = some scan;
          last_scan_status = some queued;
          last_scan_score = s.last_scan_score;
          last_scanned_at = some now;
        })
          ≡ is_own_site input.site_id input.team_id scope s
    own_same team_wide s = refl
    own_same (within w) s = refl

commit_scan-IsStarted :
    (clock : Clock) (input : CreateInput) (db db' : Db) (row : ScanRow) (o : Ledger × SpendOutcome)
    → spend_credit clock (spend_input input db) db.ledger ≡ o
    → exists (is_own_site input.site_id input.team_id input.scope) db.sites ≡ true
    → commit_scan db (insert_scan clock input db) (new_scan input db.next_scan_id) o ≡ (db', ok row)
    → IsStarted clock input db db' row
commit_scan-IsStarted clock input db db' row (ledger, limit_error u l) e own h =
    absurd (ground arith)
commit_scan-IsStarted clock input db db' row (ledger, spent r) e own h = record {
  result = r;
  paid = e ∙ ground arith;
  made = ground arith;
  inserted = ground arith;
  own = ground (arith, is_own_site-set clock.sql_now db.next_scan_id input db.sites);
}

create_manual_scan-IsStarted :
    (clock : Clock) (input : CreateInput) (db db' : Db) (row : ScanRow)
    → create_manual_scan clock input db ≡ (db', ok row)
    → IsStarted clock input db db' row
unfolding create_manual_scan
create_manual_scan-IsStarted clock input db db' row h =
    elim (Bool-cases (exists (is_own_site input.site_id input.team_id input.scope) db.sites)) [
      | inr missing ↦ absurd (ground arith)
      | inl own ↦ elim (Bool-cases (exists (runs_for input.site_id) db.scans)) [
        | inl busy ↦ absurd (ground arith)
        | inr free ↦
            commit_scan-IsStarted clock input db db' row
              (spend_credit clock (spend_input input db) db.ledger) refl own (ground arith)
      ]
    ]

abbrev pub used_of : ℕ → Db → Option ℕ
used_of team db =
    Option.map (λ (s : SubscriptionState). s.credits_used) (db.ledger.subscriptions team)

-- The scan that was just inserted is the one that a cancellation finds.
started-found :
    (clock : Clock) (input : CreateInput) (db db' : Db) (row : ScanRow)
    → IsSound db
    → IsStarted clock input db db' row
    → find (is_own_scan row.id input.team_id input.scope db'.sites) db'.scans ≡ some row
started-found clock input db db' row s t =
    let p = is_own_scan row.id input.team_id input.scope db'.sites in
    let site =
      λ (r : ScanRow). exists (is_own_site r.site_id input.team_id input.scope) db'.sites in
    let id : row.id ≡ db.next_scan_id = ap (λ (r : ScanRow). r.id) t.made in
    let none_before : count p db.scans ≡ 0 =
      omega (arith, count-and_le (has_id row.id) site db.scans, s.fresh row.id (omega arith)) in
    let hit : p row ≡ true = rw (==_self row.id) (
      subst (λ i. exists (is_own_site i input.team_id input.scope) db'.sites ≡ true)
        (sym (ap (λ (r : ScanRow). r.site_id) t.made)) t.own) in
    rw t.inserted (find-snoc p db.scans row none_before hit)

-- A scan that was started in a sound database, and whose id no refund of the team names yet, can
-- be canceled at once: the cancellation succeeds with the same row as canceled, and takes the
-- team's usage down by one.
pub cancel_scan-create_manual_scan :
    (clock clock' : Clock) (input : CreateInput) (db db' : Db) (row : ScanRow)
    → IsSound db
    → create_manual_scan clock input db ≡ (db', ok row)
    → exists (is_refund_of (log_spend (spend_input input db))) db.ledger.transactions ≡ false
    → let (db'', result) = cancel_scan clock' input.team_id row.id input.scope db' in
      (result ≡ ok (record row { status = canceled }))
      × (used_of input.team_id db'' ≡ Option.map (λ n. n - 1) (used_of input.team_id db'))
unfolding cancel_scan
cancel_scan-create_manual_scan clock clock' input db db' row s h fresh =
    let t = create_manual_scan-IsStarted clock input db db' row h in
    let found = started-found clock input db db' row s t in
    let queue : is_active row.status ≡ true = ap (λ (r : ScanRow). is_active r.status) t.made in
    let id : row.id ≡ db.next_scan_id = ap (λ (r : ScanRow). r.id) t.made in
    let c =
      spend_credit-IsCharged clock (spend_input input db) db.ledger db'.ledger t.result t.paid in
    let back =
      refund_credit-spend_credit clock (spend_input input db) row.id db.ledger db'.ledger t.result
        t.paid (ap some (sym id)) fresh in
    (rw (found, queue) refl, rw (found, queue) (back.1 ∙ ground (arith, c.stored, c.used)))
