-- ===== src/Billing/Ledger/Lapsed.antt =====
-- A lapsed period of a subscription that Stripe bills: the reset leaves `current_period_end` in
-- the past, so that every spend starts from zero again.
use scan_pal.Common.{ℕ, zero, suc, ◌<◌, ◌≡◌, refl, some, true, arith, String}
use scan_pal.Billing.Ledger.{
  SubscriptionState, Ledger, Clock, SpendInput, spent, limit_error, is_active_status,
  credits_limit_for, spend_credit, charge_row, reset_row,
}
use scan_pal.Billing.Plans.{PlanId, free, pro, max}

-- An active subscription with a Stripe id whose period ended before `clock`.
pub record IsLapsedAtStripe (clock : Clock) (t : ℕ) (db : Ledger) (row : SubscriptionState)
    : Type 0 where
  pub stored : db.subscriptions t ≡ some row
  pub active : is_active_status row.status ≡ true
  pub id : String
  pub billed : row.stripe_subscription_id ≡ some id
  pub end : ℕ
  pub ends : row.current_period_end ≡ some end
  pub past : end < clock.js_now

credits_limit-pos : (p : PlanId) → 0 < credits_limit_for p
unfolding credits_limit_for
credits_limit-pos free = omega arith
credits_limit-pos pro = omega arith
credits_limit-pos max = omega arith

spend_credit-lapsed :
    (clock : Clock) (input : SpendInput) (db : Ledger) (row : SubscriptionState)
    → IsLapsedAtStripe clock input.team_id db row
    → IsLapsedAtStripe clock input.team_id
        (spend_credit clock input db).0
        (record row { credits_used = 1 })
      × ((spend_credit clock input db).1
          ≡ spent (record {
            plan = row.plan;
            credits_used = 1;
            credits_limit = credits_limit_for row.plan;
          }))
unfolding spend_credit charge_row reset_row
spend_credit-lapsed clock input db row l = (
  record {
    stored = ground (arith, credits_limit-pos row.plan);
    active = l.active;
    id = l.id;
    billed = l.billed;
    end = l.end;
    ends = l.ends;
    past = l.past;
  },
  ground (arith, credits_limit-pos row.plan),
)

-- `n` spends, one after the other; how many of them succeeded.
unfoldable pub spend_times : ℕ → Clock → SpendInput → Ledger → Ledger × ℕ
spend_times zero clock input db = (db, 0)
spend_times (suc n) clock input db =
    let (db', outcome) = spend_credit clock input db in
    let (end, ok) = spend_times n clock input db' in
    (end, elim outcome [ spent r ↦ suc ok | limit_error u l ↦ ok ])

-- While Stripe has not moved the lapsed period of an active subscription, the limit does not
-- bind: any number of spends, at the same time, all succeed, whatever the plan.
pub spend_times-lapsed :
    (n : ℕ) (clock : Clock) (input : SpendInput) (db : Ledger) (row : SubscriptionState)
    → IsLapsedAtStripe clock input.team_id db row
    → (spend_times n clock input db).1 ≡ n
unfolding spend_times
spend_times-lapsed zero clock input db row l = refl
spend_times-lapsed (suc n) clock input db row l =
    let (l', e) = spend_credit-lapsed clock input db row l in
    ground (arith, spend_times-lapsed n clock input (spend_credit clock input db).0 _ l')
