-- ===== src/Billing/Stripe.antt =====
-- apps/web/lib/billing-core.ts: the events of Stripe's webhook. `teams` lists the keys of the table
-- `subscriptions` in its order. Times of Stripe are in seconds. An error of the database, after
-- which the code rolls back, is not modelled.
use scan_pal.Common.{
  ℕ, ◌*◌, Option, none, some, List, [], ◌∷◌, ◌++◌, Bool, true, false, ◌||◌, ◌&&◌, String, str_eq,
  if◌then◌else◌, exists, find, put, modify, ◌==◌,
}
pub mod Once
pub mod Deletion
mod Tests
use mathlib.Core.Option
use scan_pal.Billing.Plans.{PlanId, free, pro, max}
use scan_pal.Billing.Ledger.{SubscriptionState, Interval, month, year, Ledger}

pub record StripeObject : Type 0 where
  pub id : Option String
  pub customer : Option String
  pub subscription : Option String
  pub status : Option String
  pub current_period_end : Option ℕ
  pub cancel_at_period_end : Option Bool
  pub team_id : Option ℕ  -- `metadata.team_id`
  pub plan_id : Option String  -- `metadata.plan_id`
  pub price : Option String  -- `items.data[0].price.id`
  pub recurring : Option String  -- `items.data[0].price.recurring.interval`

pub record StripeWebhookEvent : Type 0 where
  pub id : String
  pub type : String
  pub object : StripeObject

pub data WebhookOutcome : Type 0 where
  processed duplicate ignored : WebhookOutcome

-- `webhook_events` holds the ids that were seen.
pub record Store : Type 0 where
  pub ledger : Ledger
  pub teams : List ℕ
  pub webhook_events : List String

abbrev pub is_checkout_type : String → Bool
is_checkout_type t = str_eq t "checkout.session.completed"

abbrev pub is_deletion_type : String → Bool
is_deletion_type t = str_eq t "customer.subscription.deleted"

abbrev pub is_subscription_type : String → Bool
is_subscription_type t =
    str_eq t "customer.subscription.created"
    || str_eq t "customer.subscription.updated"
    || is_deletion_type t

abbrev pub is_invoice_type : String → Bool
is_invoice_type t = str_eq t "invoice.payment_failed"

unfoldable pub is_supported_type : String → Bool
is_supported_type t = is_checkout_type t || is_subscription_type t || is_invoice_type t

-- `STATUS_MAP[object.status ?? ""] ?? "past_due"`.
unfoldable pub status_map : String → String
status_map s =
    if str_eq s "active"
    then "active"
    else (if str_eq s "trialing"
        then "trialing"
        else (if str_eq s "past_due"
            then "past_due"
            else (if str_eq s "canceled"
                  || str_eq s "incomplete"
                  || str_eq s "incomplete_expired"
                  || str_eq s "unpaid"
                  || str_eq s "paused"
                then "canceled"
                else "past_due")))

abbrev or_empty : Option String → String
or_empty none = ""
or_empty (some s) = s

-- `toDate`.
abbrev pub to_date : Option ℕ → Option ℕ
to_date none = none
to_date (some t) = some (t * 1000)

abbrev pub coalesce : {A : Type 0} → Option A → Option A → Option A
coalesce none old = old
coalesce (some x) old = some x

abbrev or_else : {A : Type 0} → Option A → A → A
or_else none old = old
or_else (some x) old = x

-- `planIdSchema.safeParse(...)`, with the fallback to "pro".
abbrev parse_plan : Option String → PlanId
parse_plan none = pro
parse_plan (some s) =
    if str_eq s "free"
    then free
    else if str_eq s "pro"
    then pro
    else if str_eq s "max"
    then max
    else pro

-- The upsert of a finished checkout: a new row, with the columns' defaults, or the old one changed.
abbrev pub checkout_row : ℕ → StripeObject → String → Option SubscriptionState → SubscriptionState
checkout_row team object subscription none = record {
  team_id = team;
  plan = parse_plan object.plan_id;
  status = "active";
  current_period_end = to_date object.current_period_end;
  credits_used = 0;
  stripe_customer_id = object.customer;
  stripe_subscription_id = some subscription;
  cancel_at_period_end = false;
  interval = month;
}
checkout_row team object subscription (some row) = record row {
  plan = parse_plan object.plan_id;
  status = "active";
  current_period_end = coalesce (to_date object.current_period_end) row.current_period_end;
  stripe_customer_id = coalesce object.customer row.stripe_customer_id;
  stripe_subscription_id = some subscription;
}

abbrev add_team : ℕ → List ℕ → List ℕ
add_team team teams = if exists (λ t. t == team) teams then teams else teams ++ team ∷ []

abbrev upsert_checkout : ℕ → StripeObject → String → Store → Store
upsert_checkout team object subscription db = record db {
  ledger = record (db.ledger) {
    subscriptions =
        put team (some (checkout_row team object subscription (db.ledger.subscriptions team)))
          db.ledger.subscriptions;
  };
  teams = add_team team db.teams;
}

abbrev checkout_with : Option ℕ → Option String → StripeObject → Store → Store
checkout_with (some team) (some subscription) object db =
    upsert_checkout team object subscription db
checkout_with (some team) none object db = db
checkout_with none subscription object db = db

unfoldable pub handle_checkout_completed : StripeObject → Store → Store
handle_checkout_completed object db = checkout_with object.team_id object.subscription object db

-- SQL's `column = $1`, which is not true when either is null.
abbrev pub sql_eq : Option String → Option String → Bool
sql_eq (some a) (some b) = str_eq a b
sql_eq (some a) none = false
sql_eq none b = false

abbrev pub matches_row : Bool → StripeObject → Option SubscriptionState → Bool
matches_row deletion object none = false
matches_row deletion object (some row) =
    sql_eq row.stripe_subscription_id object.id
    || (if deletion then false else sql_eq row.stripe_customer_id object.customer)

-- The `select team_id ... limit 1`.
unfoldable pub find_team : Bool → StripeObject → Store → Option ℕ
find_team deletion object db =
    find (λ t. matches_row deletion object (db.ledger.subscriptions t)) db.teams

abbrev pub to_free : SubscriptionState → SubscriptionState
to_free row = record row {
  plan = free;
  status = "active";
  cancel_at_period_end = false;
  interval = month;
  stripe_subscription_id = none;
  current_period_end = none;
}

abbrev interval_of : Option String → Interval → Interval
interval_of none old = old
interval_of (some s) old = if str_eq s "month" then month else if str_eq s "year" then year else old

abbrev pub updated_row :
    (plan : Option PlanId) → StripeObject → SubscriptionState → SubscriptionState
updated_row plan object row = record row {
  status = status_map (or_empty object.status);
  current_period_end = coalesce (to_date object.current_period_end) row.current_period_end;
  stripe_customer_id = coalesce object.customer row.stripe_customer_id;
  stripe_subscription_id = coalesce object.id row.stripe_subscription_id;
  cancel_at_period_end = or_else object.cancel_at_period_end row.cancel_at_period_end;
  plan = or_else plan row.plan;
  interval = interval_of object.recurring row.interval;
}

abbrev set_row : ℕ → (SubscriptionState → SubscriptionState) → Store → Store
set_row team f db = record db {
  ledger = record (db.ledger) { subscriptions = modify team f db.ledger.subscriptions };
}

abbrev pub update_found :
    (deletion : Bool) → (plan : Option PlanId) → StripeObject → Option ℕ → Store → Store
update_found deletion plan object none db = db
update_found true plan object (some team) db = set_row team to_free db
update_found false plan object (some team) db = set_row team (updated_row plan object) db

-- `resolvePlanFromPrice` is a parameter: it reads the price ids of the deployment.
module _ (resolve_plan_from_price : Option String → Option PlanId) where
  unfoldable pub handle_subscription_event : (deletion : Bool) → StripeObject → Store → Store
  unfolding find_team
  handle_subscription_event deletion object db =
      update_found deletion (resolve_plan_from_price object.price) object
        (find_team deletion object db) db

  abbrev pub handle_event : StripeWebhookEvent → Store → Store
  handle_event event db =
      if is_checkout_type event.type
      then handle_checkout_completed event.object db
      else (if is_subscription_type event.type
          then handle_subscription_event (is_deletion_type event.type) event.object db
          else db)

  unfoldable pub process_stripe_event : StripeWebhookEvent → Store → Store × WebhookOutcome
  process_stripe_event event db =
      if is_supported_type event.type
      then (if exists (str_eq event.id) db.webhook_events then (db, duplicate) else (
        handle_event event (record db { webhook_events = db.webhook_events ++ event.id ∷ [] }),
        processed,
      ))
      else (db, ignored)
