-- ===== src/Billing/Ledger/Copy.antt =====
-- apps/scheduler/src/credits.ts: the scheduler's own copy of `spendCredit`, written as one
-- function like the source. It reports no result.
use scan_pal.Common.{ℕ, ◌≡◌, Option, none, some, [], ◌∷◌, ◌++◌, not, arith, ltb, put, if◌then◌else◌}
use scan_pal.Billing.Ledger.{
  SubscriptionState, Ledger, Clock, SpendInput, SpendOutcome, spent, is_active_status, is_lapsed,
  fresh_row, charge, log_spend, spend_credit, charge_row, reset_row,
}
use scan_pal.Billing.Plans.{free, plans}

-- `void`, or a `CreditLimitError`.
pub data ScheduleOutcome : Type 0 where
  done : ScheduleOutcome
  limit_error : (credits_used credits_limit : ℕ) → ScheduleOutcome

-- The last two statements, on the row as it is stored now.
abbrev charge_schedule :
    SpendInput → ℕ → ℕ → Option SubscriptionState → Ledger → Ledger × ScheduleOutcome
charge_schedule input used limit none db = (db, ScheduleOutcome.limit_error used limit)
charge_schedule input used limit (some row) db =
    if ltb row.credits_used limit
    then (
      record {
        subscriptions = put input.team_id (some (charge row)) db.subscriptions;
        transactions = db.transactions ++ log_spend input ∷ [];
      },
      done,
    )
    else (db, ScheduleOutcome.limit_error used limit)

abbrev spend_schedule_found :
    Clock → SpendInput → Option SubscriptionState → Ledger → Ledger × ScheduleOutcome
spend_schedule_found clock input none db = (
  db,
  ScheduleOutcome.limit_error (plans free).credits_per_period (plans free).credits_per_period,
)
spend_schedule_found clock input (some sub) db =
    let limit = (plans sub.plan).credits_per_period in
    if not (is_active_status sub.status)
    then (db, ScheduleOutcome.limit_error sub.credits_used limit)
    else (if is_lapsed clock.js_now sub.current_period_end
        then charge_schedule input 0 limit
            ((reset_row clock input.team_id db).subscriptions input.team_id)
            (reset_row clock input.team_id db)
        else charge_schedule input sub.credits_used limit (db.subscriptions input.team_id) db)

unfoldable pub spend_schedule_credit : Clock → SpendInput → Ledger → Ledger × ScheduleOutcome
unfolding is_lapsed reset_row plans
spend_schedule_credit clock input db =
    let rows : ℕ → Option SubscriptionState = elim (db.subscriptions input.team_id) [
      | none ↦ put input.team_id (some (fresh_row clock input.team_id)) db.subscriptions
      | some row ↦ db.subscriptions
    ] in
    spend_schedule_found clock input (rows input.team_id) (record db { subscriptions = rows })

-- What the scheduler sees of an outcome.
abbrev pub forget : SpendOutcome → ScheduleOutcome
forget (spent r) = done
forget (SpendOutcome.limit_error u l) = ScheduleOutcome.limit_error u l

-- The scheduler's copy and spendCredit make the same ledger, and fail together with the same
-- numbers.
pub spend_schedule_credit-eq :
    (clock : Clock) (input : SpendInput) (db : Ledger)
    → spend_schedule_credit clock input db
      ≡ ((spend_credit clock input db).0, forget (spend_credit clock input db).1)
unfolding spend_schedule_credit spend_credit charge_row reset_row
spend_schedule_credit-eq clock input db = ground arith
