-- ===== src/Tests/Payments.antt =====
-- app/billing/webhook.py at concrete inputs.
use rfp_shred.Prelude.{List, [], arith, refl, some, true, ℕ, ◌∷◌, ◌≡◌}
use rfp_shred.Models.{Session, Rfp}
use rfp_shred.Billing.Gate.{is_entitled}
use rfp_shred.Billing.Webhook.Event.{Event, entitlement_granted, returned, session_of, find_rfp}
use rfp_shred.Billing.Webhook.Process.{Env, on_checkout, process_event, dispatch, already_granted}
use rfp_shred.Billing.Webhook.Handle.{already_processed, done, http_status, handle_webhook}
use rfp_shred.Billing.Webhook.Tombstone.{IsCanceled, deliver_all, deliver_all-IsCanceled}
use rfp_shred.Billing.Webhook.Unlock.{on_checkout-opens, on_checkout-once}
use rfp_shred.Billing.Webhook.Delivery.{handle_webhook-once}
use rfp_shred.Tests.Samples.{
  env_at, checkout_obj, checkout_event, invoice_event, locked_rfp, shop, canceled_shop,
}

abbrev deliveries : List (Env × Event)
deliveries = (env_at 20, invoice_event) ∷ (env_at 30, checkout_event) ∷ []

deliver_all-IsCanceled_example : IsCanceled 7 (deliver_all deliveries canceled_shop)
deliver_all-IsCanceled_example =
    deliver_all-IsCanceled 7 deliveries canceled_shop
      (λ e. absurd (omega arith), (λ e. absurd (omega arith), tt))
      (record { dead = (λ e. refl, tt); tomb = refl })

on_checkout-opens_example :
    (s : Session) × (r : Rfp) × (on_checkout (env_at 9) checkout_obj shop
      ≡ returned entitlement_granted s)
    × (find_rfp s 1 ≡ some r)
    × ((now account_id : ℕ) → is_entitled now s account_id r ≡ true)
on_checkout-opens_example =
    on_checkout-opens (env_at 9) checkout_obj 1 2 locked_rfp shop refl refl refl refl

on_checkout-once_example :
    (session_of (
      on_checkout
        (env_at 20)
        checkout_obj
        (session_of (on_checkout (env_at 9) checkout_obj shop)))).entitlements
    ≡ (session_of (on_checkout (env_at 9) checkout_obj shop)).entitlements
on_checkout-once_example =
    on_checkout-once (env_at 9) (env_at 20) checkout_obj 1 2 locked_rfp shop refl refl refl refl
      refl

abbrev delivered : Session
delivered = (handle_webhook (env_at 9) true (some checkout_event) shop).1

first_delivery :
    handle_webhook (env_at 9) true (some checkout_event) shop
    ≡ (done entitlement_granted, delivered)
unfolding handle_webhook process_event dispatch on_checkout already_granted
first_delivery = refl

handle_webhook-once_example :
    (handle_webhook (env_at 20) true (some checkout_event) delivered
      ≡ (already_processed, delivered))
    × (http_status (handle_webhook (env_at 20) true (some checkout_event) delivered).0 ≡ 200)
handle_webhook-once_example =
    handle_webhook-once (env_at 9) (env_at 20) checkout_event shop delivered entitlement_granted
      first_delivery
