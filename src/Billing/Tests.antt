-- ===== src/Billing/Tests.antt =====
-- Runs of the credit ledger, and the theorems about it at concrete inputs.
use scan_pal.Common.{ℕ, ◌≡◌, refl, Option, none, some, [], false, arith, String, put}
use scan_pal.Billing.Plans.{PlanId, free, pro}
use scan_pal.Billing.Ledger.{
  month, SubscriptionState, Ledger, Clock, SpendInput, SpendResult, spent, spend_credit,
  refund_credit, is_active_status, credits_limit_for,
}
use scan_pal.Billing.Ledger.Spend.{IsCharged, IsWithin, spend_credit-IsCharged}
use scan_pal.Billing.Ledger.Refund.{refund_credit-twice}
use scan_pal.Billing.Ledger.Lapsed.{IsLapsedAtStripe, spend_times, spend_times-lapsed}

abbrev empty : Ledger
empty = record { subscriptions = λ t. none; transactions = [] }

abbrev clock : Clock
clock = record { sql_now = 1000; js_now = 1001 }

abbrev ask : SpendInput
ask = record { team_id = 7; reason = "scan"; scan_id = some 40 }

abbrev row_of : PlanId → String → Option ℕ → Option String → ℕ → SubscriptionState
row_of p status end stripe used = record {
  team_id = 7;
  plan = p;
  status = status;
  current_period_end = end;
  credits_used = used;
  stripe_customer_id = stripe;
  stripe_subscription_id = stripe;
  cancel_at_period_end = false;
  interval = month;
}

abbrev with_row : SubscriptionState → Ledger
with_row row = record { subscriptions = put 7 (some row) (λ t. none); transactions = [] }

-- A Pro team with one credit left, and one whose period has lapsed.
abbrev last_credit : Ledger
last_credit = with_row (row_of pro "active" (some 5000) (some "sub_1") 499)

abbrev lapsed_row : SubscriptionState
lapsed_row = row_of pro "past_due" (some 10) (some "sub_1") 500

abbrev first_result : SpendResult
first_result = record { plan = free; credits_used = 1; credits_limit = 5 }

spend_first : (spend_credit clock ask empty).1 ≡ spent first_result
unfolding spend_credit is_active_status
spend_first = refl

spend_credit-IsCharged_example : IsCharged 0 empty (spend_credit clock ask empty).0 ask first_result
spend_credit-IsCharged_example =
    spend_credit-IsCharged clock ask empty (spend_credit clock ask empty).0 first_result
      (unfold spend_credit is_active_status in refl)

last_credit-IsWithin : IsWithin last_credit
unfolding credits_limit_for
last_credit-IsWithin t row h = ground arith

refund_credit-twice_example :
    refund_credit 7 40 (refund_credit 7 40 (spend_credit clock ask empty).0).0
    ≡ ((refund_credit 7 40 (spend_credit clock ask empty).0).0, false)
refund_credit-twice_example =
    refund_credit-twice 7 40 (spend_credit clock ask empty).0
      (refund_credit 7 40 (spend_credit clock ask empty).0).0
      (unfold refund_credit spend_credit is_active_status in refl)

lapsed_at_stripe : IsLapsedAtStripe clock 7 (with_row lapsed_row) lapsed_row
unfolding is_active_status
lapsed_at_stripe = record {
  stored = refl;
  active = refl;
  id = "sub_1";
  billed = refl;
  end = 10;
  ends = refl;
  past = omega arith;
}

spend_times-lapsed_example : (spend_times 3000 clock ask (with_row lapsed_row)).1 ≡ 3000
spend_times-lapsed_example =
    spend_times-lapsed 3000 clock ask (with_row lapsed_row) lapsed_row lapsed_at_stripe
