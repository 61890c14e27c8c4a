-- ===== src/Billing/Stripe/Tests.antt =====
-- A subscription of Stripe that ends, and the theorems about its events at concrete inputs.
use scan_pal.Common.{
  ℕ, ◌≡◌, ◌≢◌, refl, Option, none, some, [], ◌∷◌, true, false, arith, String, ◌==◌, if◌then◌else◌,
}
use scan_pal.Billing.Plans.{PlanId, free, pro, plans}
use scan_pal.Billing.Ledger.{
  SubscriptionState, month, Ledger, Clock, limit_error, credits_limit_for, spend_credit,
}
use scan_pal.Billing.Stripe.{
  StripeObject, StripeWebhookEvent, processed, Store, find_team, handle_subscription_event,
  process_stripe_event,
}
use scan_pal.Billing.Stripe.Once.{process_stripe_event-twice}
use scan_pal.Billing.Stripe.Deletion.{handle_subscription_event-locked}

abbrev prices : Option String → Option PlanId
prices p = none

abbrev paying : SubscriptionState
paying = record {
  team_id = 7;
  plan = pro;
  status = "active";
  current_period_end = some 9000;
  credits_used = 40;
  stripe_customer_id = some "cus";
  stripe_subscription_id = some "sub_new";
  cancel_at_period_end = false;
  interval = month;
}

abbrev other_team : SubscriptionState
other_team = record paying {
  team_id = 8;
  stripe_customer_id = some "cus_8";
  stripe_subscription_id = some "sub_8";
}

abbrev rows : ℕ → Option SubscriptionState
rows t = if t == 7 then some paying else if t == 8 then some other_team else none

abbrev db : Store
db = record {
  ledger = record { subscriptions = rows; transactions = [] };
  teams = 7 ∷ 8 ∷ [];
  webhook_events = [];
}

abbrev about : String → String → StripeObject
about subscription status = record {
  id = some subscription;
  customer = some "cus";
  subscription = none;
  status = some status;
  current_period_end = none;
  cancel_at_period_end = none;
  team_id = none;
  plan_id = none;
  price = none;
  recurring = none;
}

abbrev deleted : StripeWebhookEvent
deleted = record {
  id = "evt";
  type = "customer.subscription.deleted";
  object = about "sub_new" "canceled";
}

process_stripe_event-twice_example :
    ((process_stripe_event prices deleted (process_stripe_event prices deleted db).0).0
      ≡ (process_stripe_event prices deleted db).0)
    × ((process_stripe_event prices deleted (process_stripe_event prices deleted db).0).1
        ≢ processed)
process_stripe_event-twice_example = process_stripe_event-twice prices deleted db

abbrev clock : Clock
clock = record { sql_now = 999999999; js_now = 999999999 }

abbrev ended : Ledger
ended = (handle_subscription_event prices true (about "sub_new" "canceled") db).ledger

handle_subscription_event-locked_example :
    spend_credit clock (record { team_id = 7; reason = "scan"; scan_id = none }) ended
    ≡ (ended, limit_error 40 (credits_limit_for free))
handle_subscription_event-locked_example =
    handle_subscription_event-locked prices (about "sub_new" "canceled") 7 paying db clock "scan"
      none (unfold find_team in refl) refl (unfold credits_limit_for plans in omega arith)
