-- ===== src/Billing.antt =====
-- Plans, subscriptions and scan credits: packages/shared/src/plans.ts,
-- packages/scan-core/src/credits.ts and apps/scheduler/src/credits.ts.
pub mod Plans
pub mod Ledger
pub mod Stripe
pub mod Entitlement
mod Tests
