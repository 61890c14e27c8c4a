-- ===== src/Billing/Stripe/Deletion.antt =====
-- The end of a subscription, by an event about it or about an older one of the same customer.
use native.Mathlib.Decide.{ℕ_discrete}
use scan_pal.Common.{
  ℕ, ==_self, ◌≤◌, ◌≡◌, ◌≢◌, refl, arith, Option, some, true, false, String, find-holds,
  Option-cases, inl, inr,
}
use mathlib.Core.Option
use scan_pal.Billing.Plans.{PlanId, free, plans}
use scan_pal.Billing.Ledger.{
  SubscriptionState, Clock, limit_error, is_active_status, credits_limit_for, spend_credit,
  charge_row,
}
use scan_pal.Billing.Entitlement.{get_plan_for_team}
use scan_pal.Billing.Stripe.{
  StripeObject, Store, sql_eq, matches_row, find_team, handle_subscription_event, status_map,
}

module _ (resolve_plan_from_price : Option String → Option PlanId) where
  -- When a subscription ends whose team has used at least the free plan's credits in its period,
  -- the team cannot spend a credit afterwards, at whatever time: its usage is not reset, and no
  -- period is left that could lapse.
  pub handle_subscription_event-locked :
      (object : StripeObject) (team : ℕ) (row : SubscriptionState) (db : Store) (clock : Clock)
      (reason : String) (scan : Option ℕ)
      → find_team true object db ≡ some team
      → db.ledger.subscriptions team ≡ some row
      → credits_limit_for free ≤ row.credits_used
      → let ended = (handle_subscription_event resolve_plan_from_price true object db).ledger in
        spend_credit clock (record { team_id = team; reason = reason; scan_id = scan }) ended
        ≡ (ended, limit_error row.credits_used (credits_limit_for free))
  unfolding handle_subscription_event spend_credit charge_row
  handle_subscription_event-locked object team row db clock reason scan f e l =
      rw (f, e) (ground arith)

  -- The end of a subscription leaves the row of a team with another subscription as it is.
  pub handle_subscription_event-others :
      (object : StripeObject) (team : ℕ) (row : SubscriptionState) (db : Store)
      → db.ledger.subscriptions team ≡ some row
      → sql_eq row.stripe_subscription_id object.id ≡ false
      → (handle_subscription_event resolve_plan_from_price true object db).ledger.subscriptions team
        ≡ some row
  unfolding handle_subscription_event find_team
  handle_subscription_event-others object team row db e other =
      elim (Option-cases (find_team true object db)) [
        | inl none_found ↦ rw none_found e
        | inr (found, f) ↦ elim (ℕ_discrete team found) [
          | no apart ↦ rw f (ground arith)
          | yes same ↦
              let hit =
                find-holds (λ t. matches_row true object (db.ledger.subscriptions t)) db.teams found
                  f in
              absurd (ground arith)
        ]
      ]

  -- An update of another subscription of the same customer, with a status that maps to canceled,
  -- takes the team that it finds down to the free plan, and puts that subscription's id in the
  -- place of the team's own.
  pub handle_subscription_event-stale :
      (object : StripeObject) (team : ℕ) (row : SubscriptionState) (old status : String)
      (db : Store)
      → find_team false object db ≡ some team
      → db.ledger.subscriptions team ≡ some row
      → object.id ≡ some old
      → row.stripe_subscription_id ≢ some old
      → object.status ≡ some status
      → status_map status ≡ "canceled"
      → let ended = handle_subscription_event resolve_plan_from_price false object db in
        (get_plan_for_team team ended.ledger ≡ plans free)
        × (Option.map
              (λ (r : SubscriptionState). r.stripe_subscription_id)
              (ended.ledger.subscriptions team)
            ≡ some (some old))
  unfolding handle_subscription_event get_plan_for_team is_active_status
  handle_subscription_event-stale object team row old status db f e i new s c =
      rw (f, e, i, s, ==_self team) (rw c (refl, refl))
