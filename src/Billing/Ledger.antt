-- ===== src/Billing/Ledger.antt =====
-- packages/scan-core/src/credits.ts and its copy apps/scheduler/src/credits.ts: spending and
-- refunding credits. The tables `subscriptions` and `credit_transactions` are a function of
-- the primary key `team_id` and a list of rows, and the statements of one transaction run one after the other. Teams and scans are numbers, times
-- are milliseconds. `updated_at` is left out: nothing reads it.
use scan_pal.Common.{
  ℕ, ◌+◌, ◌-◌, ◌*◌, Option, none, some, List, [], ◌∷◌, ◌++◌, Bool, true, false, ◌||◌, ◌&&◌, not,
  String, str_eq, ltb, ◌==◌, if◌then◌else◌, exists, put, ℤ, pos, negsuc, eq_ℤ,
}
pub mod Spend
pub mod Refund
pub mod Lapsed
pub mod Copy
use mathlib.Core.Option
use scan_pal.Billing.Plans.{PlanId, free, plans}

pub data Interval : Type 0 where
  month year : Interval

pub record SubscriptionState : Type 0 where
  pub team_id : ℕ
  pub plan : PlanId
  pub status : String
  pub current_period_end : Option ℕ
  pub credits_used : ℕ
  pub stripe_customer_id : Option String
  pub stripe_subscription_id : Option String
  pub cancel_at_period_end : Bool
  pub interval : Interval

-- A row of `credit_transactions`.
pub record CreditTransaction : Type 0 where
  pub team_id : ℕ
  pub amount : ℤ
  pub reason : String
  pub scan_id : Option ℕ

pub record Ledger : Type 0 where
  pub subscriptions : ℕ → Option SubscriptionState
  pub transactions : List CreditTransaction

-- `now()` of the database's transaction, and `new Date()` of the process.
pub record Clock : Type 0 where
  pub sql_now : ℕ
  pub js_now : ℕ

unfoldable pub is_active_status : String → Bool
is_active_status s = str_eq s "active" || str_eq s "trialing" || str_eq s "past_due"

unfoldable pub credits_limit_for : PlanId → ℕ
unfolding plans
credits_limit_for p = (plans p).credits_per_period

abbrev pub period_ms : ℕ
period_ms = 30 * 86400000

unfoldable pub get_subscription_state :
    ℕ → (ℕ → Option SubscriptionState) → Option SubscriptionState
get_subscription_state t rows = rows t

-- The row that `insert into subscriptions` of a new team makes, with the columns' defaults.
abbrev pub fresh_row : Clock → ℕ → SubscriptionState
fresh_row clock t = record {
  team_id = t;
  plan = free;
  status = "active";
  current_period_end = some (clock.sql_now + period_ms);
  credits_used = 0;
  stripe_customer_id = none;
  stripe_subscription_id = none;
  cancel_at_period_end = false;
  interval = month;
}

-- `on conflict (team_id) do nothing`.
unfoldable pub ensure_subscription_row :
    Clock → ℕ → (ℕ → Option SubscriptionState) → ℕ → Option SubscriptionState
ensure_subscription_row clock t rows = elim (rows t) [
  | none ↦ put t (some (fresh_row clock t)) rows
  | some row ↦ rows
]

-- `sub.current_period_end && sub.current_period_end < new Date()`.
unfoldable pub is_lapsed : ℕ → Option ℕ → Bool
is_lapsed now none = false
is_lapsed now (some end) = ltb end now

-- The `update` that opens a new period.
unfoldable pub reset_period : Clock → SubscriptionState → SubscriptionState
reset_period clock s = record s {
  credits_used = 0;
  current_period_end = elim s.stripe_subscription_id [
    | none ↦ some (clock.sql_now + period_ms)
    | some id ↦ s.current_period_end
  ];
}

-- `set credits_used = credits_used + 1`.
abbrev pub charge : SubscriptionState → SubscriptionState
charge s = record s { credits_used = s.credits_used + 1 }

pub record SpendInput : Type 0 where
  pub team_id : ℕ
  pub reason : String
  pub scan_id : Option ℕ

pub record SpendResult : Type 0 where
  pub plan : PlanId
  pub credits_used : ℕ
  pub credits_limit : ℕ

-- `CreditLimitError` is the second constructor. The ledger that comes with it holds what the open
-- transaction wrote before the error: the scheduler catches it and commits.
pub data SpendOutcome : Type 0 where
  spent : SpendResult → SpendOutcome
  limit_error : (credits_used credits_limit : ℕ) → SpendOutcome

-- The insert into `credit_transactions`.
abbrev pub log_spend : SpendInput → CreditTransaction
log_spend input = record {
  team_id = input.team_id;
  amount = pos 1;
  reason = input.reason;
  scan_id = input.scan_id;
}

-- The conditional `update ... where credits_used < $2 returning credits_used` and what follows.
-- `sub` is the row that was locked, with `credits_used` as the code has set it.
abbrev charge_stored :
    SpendInput → SubscriptionState → ℕ → Option SubscriptionState → Ledger → Ledger × SpendOutcome
charge_stored input sub limit none db = (db, limit_error sub.credits_used limit)
charge_stored input sub limit (some row) db =
    if ltb row.credits_used limit
    then (
      record {
        subscriptions = put input.team_id (some (charge row)) db.subscriptions;
        transactions = db.transactions ++ log_spend input ∷ [];
      },
      spent
          (record { plan = sub.plan; credits_used = row.credits_used + 1; credits_limit = limit }),
    )
    else (db, limit_error sub.credits_used limit)

unfoldable pub charge_row : SpendInput → SubscriptionState → Ledger → Ledger × SpendOutcome
unfolding credits_limit_for
charge_row input sub db =
    charge_stored input sub (credits_limit_for sub.plan) (db.subscriptions input.team_id) db

-- The update of the stored row that opens a new period.
unfoldable pub reset_row : Clock → ℕ → Ledger → Ledger
unfolding reset_period
reset_row clock t db = record db {
  subscriptions = put t (Option.map (reset_period clock) (db.subscriptions t)) db.subscriptions;
}

-- The checks on the locked row, and the reset of a lapsed period.
unfoldable pub spend_locked :
    Clock → SpendInput → SubscriptionState → Ledger → Ledger × SpendOutcome
unfolding charge_row is_lapsed reset_row credits_limit_for
spend_locked clock input sub db =
    if not (is_active_status sub.status)
    then (db, limit_error sub.credits_used (credits_limit_for sub.plan))
    else (if is_lapsed clock.js_now sub.current_period_end
        then charge_row input (record sub { credits_used = 0 }) (reset_row clock input.team_id db)
        else charge_row input sub db)

-- `sub` is undefined: the limit is that of the free plan, and it counts as used up.
unfoldable pub spend_found :
    Clock → SpendInput → Option SubscriptionState → Ledger → Ledger × SpendOutcome
unfolding spend_locked credits_limit_for
spend_found clock input none db =
    (db, limit_error (credits_limit_for free) (credits_limit_for free))
spend_found clock input (some sub) db = spend_locked clock input sub db

unfoldable pub spend_credit : Clock → SpendInput → Ledger → Ledger × SpendOutcome
unfolding spend_found ensure_subscription_row get_subscription_state
spend_credit clock input db =
    let rows = ensure_subscription_row clock input.team_id db.subscriptions in
    spend_found clock input (get_subscription_state input.team_id rows)
      (record db { subscriptions = rows })

-- SQL's `=` on a nullable column is never true of null.
abbrev pub scan_is : ℕ → Option ℕ → Bool
scan_is s none = false
scan_is s (some k) = k == s

abbrev pub same_scan : Option ℕ → Option ℕ → Bool
same_scan none k = false
same_scan (some s) k = scan_is s k

-- `ct.team_id = $1 and ct.scan_id = $2 and ct.amount = 1`.
abbrev pub is_spend_for : ℕ → ℕ → CreditTransaction → Bool
is_spend_for t s ct = ct.team_id == t && scan_is s ct.scan_id && eq_ℤ ct.amount (pos 1)

-- The condition on `r` in the subquery.
abbrev pub is_refund_of : CreditTransaction → CreditTransaction → Bool
is_refund_of ct r =
    r.team_id == ct.team_id
    && same_scan ct.scan_id r.scan_id
    && eq_ℤ r.amount (negsuc 0)
    && str_eq r.reason "scan_cancel"

abbrev pub log_refund : ℕ → ℕ → CreditTransaction
log_refund t s = record { team_id = t; amount = negsuc 0; reason = "scan_cancel"; scan_id = some s }

unfoldable pub is_refundable : ℕ → ℕ → List CreditTransaction → Bool
is_refundable t s txs = exists (λ ct. is_spend_for t s ct && not (exists (is_refund_of ct) txs)) txs

-- `greatest(credits_used - 1, 0)`.
abbrev pub uncharge : SubscriptionState → SubscriptionState
uncharge s = record s { credits_used = s.credits_used - 1 }

unfoldable pub refund_credit : ℕ → ℕ → Ledger → Ledger × Bool
unfolding is_refundable
refund_credit t s db =
    if is_refundable t s db.transactions
    then (
      record {
        subscriptions = put t (Option.map uncharge (db.subscriptions t)) db.subscriptions;
        transactions = db.transactions ++ log_refund t s ∷ [];
      },
      true,
    )
    else (db, false)
