-- ===== src/Billing/Ledger/Refund.antt =====
-- `refundCredit`: at most one refund for a scan, and a refund undoes a spend.
use mathlib.Core.Option
use scan_pal.Common.{
  ℕ, ◌-◌, ◌≡◌, some, List, [], ◌∷◌, ◌++◌, true, false, arith, Option-cases, inl, inr, ==_self,
  exists, exists-and-not, exists-last, exists-append, ◌&&◌, not,
}
use scan_pal.Billing.Ledger.{
  CreditTransaction, Ledger, Clock, SpendInput, SpendResult, spent, is_spend_for, is_refund_of,
  log_refund, log_spend, is_refundable, refund_credit, spend_credit,
}
use scan_pal.Billing.Ledger.Spend.{IsWithin, spend_credit-IsCharged}

-- The logged refund answers every spend for the scan.
log_refund-answers :
    (t s : ℕ) (ct : CreditTransaction)
    → is_spend_for t s ct ≡ true
    → is_refund_of ct (log_refund t s) ≡ true
log_refund-answers t s ct h = ground arith

is_refundable-logged :
    (t s : ℕ) (txs : List CreditTransaction)
    → is_refundable t s (txs ++ log_refund t s ∷ []) ≡ false
unfolding is_refundable
is_refundable-logged t s txs =
    exists-and-not (is_spend_for t s) (λ ct. exists (is_refund_of ct) (txs ++ log_refund t s ∷ []))
      _ (λ ct h. exists-last (is_refund_of ct) txs (log_refund t s) (log_refund-answers t s ct h))

-- After a refund of a scan has succeeded, a second refund of the same scan is refused and changes
-- nothing.
pub refund_credit-twice :
    (t s : ℕ) (db db' : Ledger)
    → refund_credit t s db ≡ (db', true)
    → refund_credit t s db' ≡ (db', false)
unfolding refund_credit
refund_credit-twice t s db db' h = ground (arith, is_refundable-logged t s db.transactions)

log_spend-refundable :
    (input : SpendInput) (s : ℕ) (txs : List CreditTransaction)
    → input.scan_id ≡ some s
    → exists (is_refund_of (log_spend input)) txs ≡ false
    → is_refundable input.team_id s (txs ++ log_spend input ∷ []) ≡ true
unfolding is_refundable
log_spend-refundable input s txs e fresh =
    let all = txs ++ log_spend input ∷ [] in
    let open_spend : exists (is_refund_of (log_spend input)) all ≡ false =
      rw (exists-append (is_refund_of (log_spend input)) txs (log_spend input ∷ []), fresh)
        (ground arith) in
    exists-last (λ ct. is_spend_for input.team_id s ct && not (exists (is_refund_of ct) all)) txs
      (log_spend input) (ground (arith, ==_self input.team_id, ==_self s))

-- The credit of a scan that was spent and was not refunded before comes back: the refund
-- succeeds, and the team's usage is one less than the spend reported.
pub refund_credit-spend_credit :
    (clock : Clock) (input : SpendInput) (s : ℕ) (db db' : Ledger) (r : SpendResult)
    → spend_credit clock input db ≡ (db', spent r)
    → input.scan_id ≡ some s
    → exists (is_refund_of (log_spend input)) db.transactions ≡ false
    → ((refund_credit input.team_id s db').1 ≡ true)
      × (Option.map
            (λ row. row.credits_used)
            ((refund_credit input.team_id s db').0.subscriptions input.team_id)
          ≡ some (r.credits_used - 1))
unfolding refund_credit
refund_credit-spend_credit clock input s db db' r h e fresh =
    let c = spend_credit-IsCharged clock input db db' r h in
    let ok : is_refundable input.team_id s db'.transactions ≡ true =
      rw c.logged (log_spend-refundable input s db.transactions e fresh) in
    (ground arith, rw ok (ground (arith, c.stored, c.used)))

-- A refund never lets a team pass its limit.
pub refund_credit-IsWithin :
    (t s : ℕ) (db : Ledger) → IsWithin db → IsWithin (refund_credit t s db).0
unfolding refund_credit
refund_credit-IsWithin t s db w u row h = elim (Option-cases (db.subscriptions u)) [
  | inl e ↦ ground arith
  | inr (sub, e) ↦ ground (arith, w u sub e)
]
