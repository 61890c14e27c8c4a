-- ===== src/Billing/Plans.antt =====
-- packages/shared/src/plans.ts: the three plans and what each of them includes.
use scan_pal.Common.{ℕ, Option, none, some, List, [], ◌∷◌, Bool, true, false, String}

pub data PlanId : Type 0 where
  free pro max : PlanId

-- The field `features` of `Plan`.
pub record Features : Type 0 where
  pub uptime : Bool
  pub github : Bool
  pub active_tests : Bool
  pub on_deploy : Bool
  pub seats : Option ℕ
  pub white_label : Bool

pub record Plan : Type 0 where
  pub id : PlanId
  pub name : String
  pub price_cents : ℕ
  pub annual_price_cents : Option ℕ
  pub credits_per_period : ℕ
  pub max_members : ℕ
  pub api_rate_per_minute : ℕ
  pub max_webhooks : ℕ
  pub features : Features

unfoldable pub plans : PlanId → Plan
plans free = record {
  id = free;
  name = "Free";
  price_cents = 0;
  annual_price_cents = none;
  credits_per_period = 5;
  max_members = 3;
  api_rate_per_minute = 60;
  max_webhooks = 1;
  features = record {
    uptime = false;
    github = false;
    active_tests = false;
    on_deploy = false;
    seats = none;
    white_label = false;
  };
}
plans pro = record {
  id = pro;
  name = "Pro";
  price_cents = 2900;
  annual_price_cents = some 29000;
  credits_per_period = 500;
  max_members = 10;
  api_rate_per_minute = 120;
  max_webhooks = 3;
  features = record {
    uptime = true;
    github = true;
    active_tests = true;
    on_deploy = true;
    seats = none;
    white_label = false;
  };
}
plans max = record {
  id = max;
  name = "Max";
  price_cents = 11600;
  annual_price_cents = some 116000;
  credits_per_period = 2000;
  max_members = 3;
  api_rate_per_minute = 240;
  max_webhooks = 3;
  features = record {
    uptime = true;
    github = true;
    active_tests = true;
    on_deploy = true;
    seats = some 3;
    white_label = true;
  };
}

unfoldable pub plan_list : List Plan
unfolding plans
plan_list = plans free ∷ plans pro ∷ plans max ∷ []

unfoldable pub is_paid_plan : PlanId → Bool
is_paid_plan free = false
is_paid_plan pro = true
is_paid_plan max = true
