-- ===== src/Billing.antt =====
-- app/billing: who may see which rows, and how Stripe's events change that.
pub mod Gate
pub mod Webhook
pub mod Checkout
