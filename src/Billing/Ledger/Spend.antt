-- ===== src/Billing/Ledger/Spend.antt =====
-- What `spendCredit` does to the ledger: the limit, the row, the log and the other teams.
use native.Mathlib.Decide.{ℕ_discrete}
use scan_pal.Common.{
  ℕ, ◌+◌, ◌≤◌, ◌≡◌, ◌≢◌, refl, sym, ap, ◌∙◌, Option, none, some, [], ◌∷◌, ◌++◌, true, arith, ltb,
  if◌then◌else◌, Bool-cases, Option-cases, inl, inr,
}
use scan_pal.Billing.Ledger.{
  SubscriptionState, Ledger, Clock, SpendInput, SpendResult, spent, is_active_status,
  credits_limit_for, is_lapsed, log_spend, charge_row, reset_row, reset_period,
  ensure_subscription_row, spend_locked, spend_credit,
}

-- What a team has used before a spend: nothing without a subscription or once its period is over.
abbrev pub usage_before : (now : ℕ) → Option SubscriptionState → ℕ
usage_before now none = 0
usage_before now (some row) = elim row.current_period_end [
  | none ↦ row.credits_used
  | some end ↦ if ltb end now then 0 else row.credits_used
]

-- What a successful spend leaves in the ledger, after a usage of `before`.
pub record IsCharged (before : ℕ) (db db' : Ledger) (input : SpendInput) (r : SpendResult)
    : Type 0 where
  pub row : SubscriptionState
  pub charged : row.credits_used ≡ before + 1
  pub stored : db'.subscriptions input.team_id ≡ some row
  pub used : row.credits_used ≡ r.credits_used
  pub plan : row.plan ≡ r.plan
  pub active : is_active_status row.status ≡ true
  pub limit : r.credits_limit ≡ credits_limit_for row.plan
  pub within : r.credits_used ≤ r.credits_limit
  pub logged : db'.transactions ≡ db.transactions ++ log_spend input ∷ []

charge_row-IsCharged :
    (input : SpendInput) (sub row : SubscriptionState) (db db' : Ledger) (r : SpendResult)
    → db.subscriptions input.team_id ≡ some row
    → row.plan ≡ sub.plan
    → is_active_status row.status ≡ true
    → charge_row input sub db ≡ (db', spent r)
    → IsCharged row.credits_used db db' input r
unfolding charge_row
charge_row-IsCharged input sub row db db' r e p a h = record {
  row = record row { credits_used = row.credits_used + 1 };
  charged = refl;
  stored = ground arith;
  used = ground arith;
  plan = ground arith;
  active = a;
  limit = ground arith;
  within = ground arith;
  logged = ground arith;
}

-- Statements before the charge leave the log alone.
relog :
    (before now_before : ℕ) (input : SpendInput) (r : SpendResult) (db mid db' : Ledger)
    → now_before ≡ before
    → mid.transactions ≡ db.transactions
    → IsCharged now_before mid db' input r
    → IsCharged before db db' input r
relog before now_before input r db mid db' b e c = record {
  row = c.row;
  charged = omega (arith, c.charged);
  stored = c.stored;
  used = c.used;
  plan = c.plan;
  active = c.active;
  limit = c.limit;
  within = c.within;
  logged = rw (← e) c.logged;
}

reset_row-stored :
    (clock : Clock) (t : ℕ) (row : SubscriptionState) (db : Ledger)
    → db.subscriptions t ≡ some row
    → (reset_row clock t db).subscriptions t ≡ some (reset_period clock row)
unfolding reset_row
reset_row-stored clock t row db e = ground arith

-- The usage that the reset of a lapsed period leaves.
usage_before-is_lapsed :
    (now : ℕ) (sub : SubscriptionState)
    → usage_before now (some sub)
      ≡ (if is_lapsed now sub.current_period_end then 0 else sub.credits_used)
unfolding is_lapsed
usage_before-is_lapsed now sub = elim (Option-cases sub.current_period_end) [
  | inl none_set ↦ rw none_set refl
  | inr (end, set) ↦ rw set refl
]

-- A row that is made for the spend has used nothing.
usage_before-ensure :
    (clock : Clock) (t : ℕ) (rows : ℕ → Option SubscriptionState)
    → usage_before clock.js_now (ensure_subscription_row clock t rows t)
      ≡ usage_before clock.js_now (rows t)
unfolding ensure_subscription_row
usage_before-ensure clock t rows = elim (Option-cases (rows t)) [
  | inl missing ↦ ground arith
  | inr (row, found) ↦
      let kept : ensure_subscription_row clock t rows t ≡ rows t = ground arith in
      ap (usage_before clock.js_now) kept
]

spend_locked-IsCharged :
    (clock : Clock) (input : SpendInput) (sub : SubscriptionState) (db db' : Ledger)
    (r : SpendResult)
    → db.subscriptions input.team_id ≡ some sub
    → spend_locked clock input sub db ≡ (db', spent r)
    → IsCharged (usage_before clock.js_now (some sub)) db db' input r
unfolding spend_locked
spend_locked-IsCharged clock input sub db db' r e h =
    elim (Bool-cases (is_active_status sub.status)) [
      | inr off ↦ absurd (ground arith)
      | inl on ↦ elim (Bool-cases (is_lapsed clock.js_now sub.current_period_end)) [
        | inr fresh ↦
            relog _ sub.credits_used input r db db db'
              (rw (usage_before-is_lapsed clock.js_now sub, fresh) refl) refl
              (charge_row-IsCharged input sub sub db db' r e refl on (ground arith))
        | inl old ↦
            relog _ 0 input r db (reset_row clock input.team_id db) db'
              (rw (usage_before-is_lapsed clock.js_now sub, old) refl) (unfold reset_row in refl)
              (charge_row-IsCharged input (record sub { credits_used = 0 }) (reset_period clock sub)
                (reset_row clock input.team_id db) db' r
                (reset_row-stored clock input.team_id sub db e) (unfold reset_period in refl)
                (unfold reset_period in on) (ground arith))
      ]
    ]

-- A spend that succeeds charges exactly one credit to an active subscription: the stored row ends
-- one above what the team had used before, where a team without a subscription or whose period is
-- over had used nothing, the stored usage is the one reported and does not pass the limit of its
-- plan, and one transaction of amount 1 is appended to the log.
pub spend_credit-IsCharged :
    (clock : Clock) (input : SpendInput) (db db' : Ledger) (r : SpendResult)
    → spend_credit clock input db ≡ (db', spent r)
    → IsCharged (usage_before clock.js_now (db.subscriptions input.team_id)) db db' input r
unfolding spend_credit
spend_credit-IsCharged clock input db db' r h =
    elim (Option-cases
      (ensure_subscription_row clock input.team_id db.subscriptions input.team_id)) [
        | inl e ↦ absurd (ground arith)
        | inr (sub, e) ↦
            relog _ (usage_before clock.js_now (some sub)) input r db
              (record db {
                subscriptions = ensure_subscription_row clock input.team_id db.subscriptions;
              })
              db'
              (ap (usage_before clock.js_now) (sym e)
                ∙ usage_before-ensure clock input.team_id db.subscriptions)
              refl (spend_locked-IsCharged clock input sub _ db' r e (rw e at h))
      ]

-- A spend touches only its own team's subscription, also when it fails.
pub spend_credit-other :
    (clock : Clock) (input : SpendInput) (db : Ledger) (t : ℕ)
    → t ≢ input.team_id
    → (spend_credit clock input db).0.subscriptions t ≡ db.subscriptions t
unfolding spend_credit charge_row reset_row
spend_credit-other clock input db t h = ground arith

-- No subscription has used more than its plan's limit.
abbrev pub IsWithin : Ledger → Type 0
IsWithin db =
    (t : ℕ) (row : SubscriptionState)
    → db.subscriptions t ≡ some row
    → row.credits_used ≤ credits_limit_for row.plan

spend_credit-within_self :
    (clock : Clock) (input : SpendInput) (db : Ledger) (row : SubscriptionState)
    → IsWithin db
    → (spend_credit clock input db).0.subscriptions input.team_id ≡ some row
    → row.credits_used ≤ credits_limit_for row.plan
unfolding spend_credit charge_row reset_row
spend_credit-within_self clock input db row w h =
    elim (Option-cases (db.subscriptions input.team_id)) [
      | inl e ↦ ground arith
      | inr (sub, e) ↦ ground (arith, w input.team_id sub e)
    ]

-- If no team has used more than its plan's limit before a spend, none has afterwards, whether the
-- spend succeeds or fails.
pub spend_credit-IsWithin :
    (clock : Clock) (input : SpendInput) (db : Ledger)
    → IsWithin db
    → IsWithin (spend_credit clock input db).0
spend_credit-IsWithin clock input db w t row h = elim (ℕ_discrete t input.team_id) [
  | yes e ↦ spend_credit-within_self clock input db row w (rw e at h)
  | no n ↦ w t row (rw (spend_credit-other clock input db t n) at h)
]
