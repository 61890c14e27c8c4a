-- ===== src/Billing/Stripe/Once.antt =====
-- An event of Stripe's webhook that comes again.
use scan_pal.Common.{
  ℕ, ◌≡◌, ◌≢◌, refl, arith, Option, none, some, [], ◌∷◌, ◌++◌, Bool, true, false, String, str_eq,
  eq_iff, exists, exists-last, Bool-cases, inl, inr,
}
use scan_pal.Billing.Plans.{PlanId}
use scan_pal.Billing.Stripe.{
  StripeObject, StripeWebhookEvent, processed, Store, is_supported_type, checkout_with,
  handle_checkout_completed, find_team, update_found, handle_subscription_event, handle_event,
  process_stripe_event, is_deletion_type,
}

checkout_with-events :
    (team : Option ℕ) (subscription : Option String) (object : StripeObject) (db : Store)
    → (checkout_with team subscription object db).webhook_events ≡ db.webhook_events
checkout_with-events (some team) (some s) object db = refl
checkout_with-events (some team) none object db = refl
checkout_with-events none s object db = refl

update_found-events :
    (deletion : Bool) (plan : Option PlanId) (object : StripeObject) (team : Option ℕ) (db : Store)
    → (update_found deletion plan object team db).webhook_events ≡ db.webhook_events
update_found-events true plan object none db = refl
update_found-events false plan object none db = refl
update_found-events true plan object (some team) db = refl
update_found-events false plan object (some team) db = refl

module _ (resolve_plan_from_price : Option String → Option PlanId) where
  handle_event-events :
      (event : StripeWebhookEvent) (db : Store)
      → (handle_event resolve_plan_from_price event db).webhook_events ≡ db.webhook_events
  unfolding handle_checkout_completed handle_subscription_event
  handle_event-events event db = ground (
    arith,
    checkout_with-events event.object.team_id event.object.subscription event.object db,
    update_found-events (is_deletion_type event.type) (resolve_plan_from_price event.object.price)
        event.object (find_team (is_deletion_type event.type) event.object db) db,
  )

  -- An event that a store has nothing to do for.
  abbrev IsDone : StripeWebhookEvent → Store → Type 0
  IsDone event db =
      ((process_stripe_event resolve_plan_from_price event db).0 ≡ db)
      × ((process_stripe_event resolve_plan_from_price event db).1 ≢ processed)

  unsupported-IsDone :
      (event : StripeWebhookEvent) (db : Store)
      → is_supported_type event.type ≡ false
      → IsDone event db
  unfolding process_stripe_event
  unsupported-IsDone event db e = rw e (refl, λ h. cc)

  seen-IsDone :
      (event : StripeWebhookEvent) (db : Store)
      → exists (str_eq event.id) db.webhook_events ≡ true
      → IsDone event db
  unfolding process_stripe_event
  seen-IsDone event db e = elim (Bool-cases (is_supported_type event.type)) [
    | inr other ↦ rw other (refl, λ h. cc)
    | inl known ↦ rw (known, e) (refl, λ h. cc)
  ]

  process_stripe_event-noted :
      (event : StripeWebhookEvent) (db : Store)
      → is_supported_type event.type ≡ true
      → exists
          (str_eq event.id)
          (process_stripe_event resolve_plan_from_price event db).0.webhook_events
        ≡ true
  unfolding process_stripe_event
  process_stripe_event-noted event db known =
      let noted = record db { webhook_events = db.webhook_events ++ event.id ∷ [] } in
      elim (Bool-cases (exists (str_eq event.id) db.webhook_events)) [
        | inl seen ↦ rw (known, seen) seen
        | inr first ↦
            rw (known, first, handle_event-events event noted)
              (exists-last (str_eq event.id) db.webhook_events event.id
                ((eq_iff event.id event.id).1 refl))
      ]

  -- An event that Stripe delivers a second time changes nothing, and is not processed.
  pub process_stripe_event-twice :
      (event : StripeWebhookEvent) (db : Store)
      → let db' = (process_stripe_event resolve_plan_from_price event db).0 in
        ((process_stripe_event resolve_plan_from_price event db').0 ≡ db')
        × ((process_stripe_event resolve_plan_from_price event db').1 ≢ processed)
  process_stripe_event-twice event db =
      let db' = (process_stripe_event resolve_plan_from_price event db).0 in
      elim (Bool-cases (is_supported_type event.type)) [
        | inr other ↦ unsupported-IsDone event db' other
        | inl known ↦ seen-IsDone event db' (process_stripe_event-noted event db known)
      ]
