-- ===== src/Billing/Entitlement.antt =====
-- packages/scan-core/src/credits.ts: which plan and which features a team is entitled to, and the
-- usage that it is shown.
use scan_pal.Common.{
  ℕ, ◌≡◌, Option, none, some, Bool, true, false, not, String, arith, if◌then◌else◌, ◌⊎◌, inl, inr,
  Option-cases, Bool-cases, refl,
}
use scan_pal.Billing.Plans.{PlanId, free, max, Plan, plans, is_paid_plan}
use scan_pal.Billing.Ledger.{SubscriptionState, Ledger, is_active_status, get_subscription_state}

abbrev pub entitled_plan : Option SubscriptionState → Plan
entitled_plan none = plans free
entitled_plan (some state) =
    if not (is_active_status state.status) then plans free else plans state.plan

unfoldable pub get_plan_for_team : ℕ → Ledger → Plan
unfolding get_subscription_state plans
get_plan_for_team t db = entitled_plan (get_subscription_state t db.subscriptions)

pub record TeamUsage : Type 0 where
  pub plan : Plan
  pub status : String
  pub credits_used : ℕ
  pub credits_limit : ℕ
  pub current_period_end : Option ℕ
  pub reset_at : Option ℕ

abbrev usage_of : Option SubscriptionState → TeamUsage
usage_of none = record {
  plan = plans free;
  status = "active";
  credits_used = 0;
  credits_limit = (plans free).credits_per_period;
  current_period_end = none;
  reset_at = none;
}
usage_of (some state) = record {
  plan = plans state.plan;
  status = state.status;
  credits_used = state.credits_used;
  credits_limit =
      if is_active_status state.status then (plans state.plan).credits_per_period else 0;
  current_period_end = state.current_period_end;
  reset_at = state.current_period_end;
}

unfoldable pub get_team_usage : ℕ → Ledger → TeamUsage
unfolding get_subscription_state plans
get_team_usage t db = usage_of (get_subscription_state t db.subscriptions)

-- The features that routes ask for by name.
pub data Feature : Type 0 where
  uptime github active_tests on_deploy white_label : Feature

unfoldable pub has_feature : Feature → Plan → Bool
has_feature uptime p = p.features.uptime
has_feature github p = p.features.github
has_feature active_tests p = p.features.active_tests
has_feature on_deploy p = p.features.on_deploy
has_feature white_label p = p.features.white_label

-- `PlanFeatureError` is the second constructor.
pub data FeatureOutcome : Type 0 where
  granted : Plan → FeatureOutcome
  feature_error : Feature → PlanId → FeatureOutcome

unfoldable pub assert_plan_feature : ℕ → Feature → Ledger → FeatureOutcome
unfolding get_plan_for_team has_feature
assert_plan_feature t f db =
    let plan = get_plan_for_team t db in
    if not (has_feature f plan) then feature_error f plan.id else granted plan

-- The paid features are off on the free plan, and white-label also on Pro.
has_feature-paid :
    (f : Feature) (id : PlanId)
    → has_feature f (plans id) ≡ true
    → (is_paid_plan id ≡ true) × (f ≡ white_label → id ≡ max)
unfolding has_feature is_paid_plan plans
has_feature-paid uptime id h = ground arith
has_feature-paid github id h = ground arith
has_feature-paid active_tests id h = ground arith
has_feature-paid on_deploy id h = ground arith
has_feature-paid white_label id h = ground arith

free_unpaid : is_paid_plan free ≡ false
unfolding is_paid_plan
free_unpaid = refl

-- A feature is granted only on an active subscription of a paid plan, and the plan that is
-- returned is that subscription's; white-label is granted only on Max.
pub assert_plan_feature-granted :
    (t : ℕ) (f : Feature) (db : Ledger) (p : Plan)
    → assert_plan_feature t f db ≡ granted p
    → (state : SubscriptionState) × (db.subscriptions t ≡ some state)
      × (is_active_status state.status ≡ true)
      × (is_paid_plan state.plan ≡ true)
      × (p ≡ plans state.plan)
      × (f ≡ white_label → state.plan ≡ max)
unfolding assert_plan_feature
assert_plan_feature-granted t f db p h = elim (Option-cases (db.subscriptions t)) [
  | inl e ↦ absurd (ground (arith, has_feature-paid f free, free_unpaid))
  | inr (state, e) ↦ elim (Bool-cases (is_active_status state.status)) [
    | inr off ↦ absurd (ground (arith, has_feature-paid f free, free_unpaid))
    | inl on ↦ (
      state,
      e,
      on,
      ground (arith, has_feature-paid f state.plan),
      ground arith,
      ground (arith, has_feature-paid f state.plan),
    )
  ]
]

-- The limit that a team is shown is that of the plan that it is entitled to, or it is 0, and then
-- the subscription is not active and the entitlements are the free plan's.
pub get_team_usage-entitled :
    (t : ℕ) (db : Ledger)
    → ((get_team_usage t db).credits_limit ≡ (get_plan_for_team t db).credits_per_period)
      ⊎ (((get_team_usage t db).credits_limit ≡ 0)
          × (get_plan_for_team t db ≡ plans free)
          × (is_active_status (get_team_usage t db).status ≡ false))
unfolding get_team_usage get_plan_for_team
get_team_usage-entitled t db = elim (Option-cases (db.subscriptions t)) [
  | inl e ↦ inl (ground arith)
  | inr (state, e) ↦ elim (Bool-cases (is_active_status state.status)) [
    | inl on ↦ inl (ground arith)
    | inr off ↦ inr (ground arith, ground arith, ground arith)
  ]
]
