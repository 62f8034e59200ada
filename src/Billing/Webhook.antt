-- ===== src/Billing/Webhook.antt =====
-- app/billing/webhook.py: the Stripe webhook. An event is what `json.loads` and the lookups with
-- their defaults make of the payload: an absent or empty text is "", a falsy number is `none`.
-- A handler that raises keeps what it had written to the session, as the code does: no rollback
-- stands between `process_event` and the commit of the request.
pub mod Event
pub mod Process
pub mod Handle
pub mod Tombstone
pub mod Period
pub mod Unlock
pub mod Delivery
