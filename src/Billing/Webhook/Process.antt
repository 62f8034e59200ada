-- ===== src/Billing/Webhook/Process.antt =====
-- app/billing/webhook.py: `process_event`, one handler for each event type.
use rfp_shred.Prelude.{
  ℕ, Bool, true, false, Option, none, some, String, str_eq, [], ◌∷◌, ◌++◌, ◌==◌, ◌&&◌, ◌||◌, not,
  if◌then◌else◌, any, first, is_some,
}
use rfp_shred.Models.{
  Session, Entitlement, Kind, single, plan, Rfp, Account, Action, of_uuid, seconds, audit,
}
use rfp_shred.Billing.Webhook.Event.{
  truthy, EventType, Obj, Event, Result, returned, raised, plan_extend, event_period_end,
  plan_was_canceled, find_plan, update_entitlement, update_rfp, find_rfp, paid_period, has_ref,
  checkout_session_completed, invoice_paid, invoice_payment_failed, subscription_deleted,
  subscription_updated, other, entitlement_granted, stored_canceled_plan, plan_extended,
  plan_payment_confirmed, stored_no_matching_plan, plan_marked_inactive, plan_canceled, plan_synced,
  stored_unhandled,
}

-- What the handlers take from outside: the clock, the id of a new row, `uuid.UUID` (none where it
-- raises `ValueError`), and the mailer: whether there is one, and whether `send` to an address
-- returns.
pub record Env : Type 0 where
  pub now : ℕ
  pub new_id : ℕ
  pub parse_uuid : String → Option ℕ
  pub has_mailer : Bool
  pub sends : String → Bool

-- `Entitlement.stripe_ref.in_(refs)`, where `refs` are the references that are not empty.
abbrev pub in_refs : String → String → Entitlement → Bool
in_refs session_id subscription_id e =
    (not (str_eq session_id "") && has_ref session_id e.stripe_ref)
    || (not (str_eq subscription_id "") && has_ref subscription_id e.stripe_ref)

unfoldable pub already_granted : Session → String → String → Bool
already_granted s session_id subscription_id =
    any (in_refs session_id subscription_id) s.entitlements

module _ (env : Env) where
  abbrev pub new_entitlement : ℕ → Kind → Rfp → Obj → Entitlement
  new_entitlement account_id single rfp obj = record {
    id = env.new_id;
    account_id = account_id;
    kind = single;
    rfp_id = some rfp.id;
    stripe_ref = some obj.id;
    active = true;
    period_end = none;
  }
  new_entitlement account_id plan rfp obj = record {
    id = env.new_id;
    account_id = account_id;
    kind = plan;
    rfp_id = none;
    stripe_ref = some (if str_eq obj.subscription "" then obj.id else obj.subscription);
    active = true;
    period_end = some (plan_extend env.now none);
  }

  abbrev pub kind_or_single : Option Kind → Kind
  kind_or_single none = single
  kind_or_single (some k) = k

  -- `if rfp.unlocked_at is None: rfp.unlocked_at = now`
  abbrev pub unlock : Rfp → Rfp
  unlock rfp = record rfp {
    unlocked_at = if is_some rfp.unlocked_at then rfp.unlocked_at else some env.now;
  }

  -- The end of the checkout branch: the unlock, and the audit, whose `uuid.UUID(account_id)` may
  -- raise after the unlock.
  abbrev pub finish_checkout : Option ℕ → Rfp → Session → Result
  finish_checkout none rfp s = raised (update_rfp rfp.id unlock s)
  finish_checkout (some account_id) rfp s = returned entitlement_granted (
      audit Action.entitlement_granted (of_uuid rfp.id) (some account_id)
        (update_rfp rfp.id unlock s))

  abbrev pub grant : Option ℕ → Obj → Rfp → Session → Result
  grant none obj rfp s =
      if already_granted s obj.id obj.subscription then finish_checkout none rfp s else raised s
  grant (some account_id) obj rfp s =
      if already_granted s obj.id obj.subscription
      then finish_checkout (some account_id) rfp s
      else finish_checkout (some account_id) rfp (record s {
        entitlements =
            s.entitlements ++ new_entitlement account_id (kind_or_single obj.kind) rfp obj ∷ [];
      })

  abbrev pub for_rfp : Option Rfp → Obj → Session → Result
  for_rfp none obj s = raised s
  for_rfp (some rfp) obj s = grant (env.parse_uuid obj.account_id) obj rfp s

  abbrev pub checkout_rfp : Obj → Option ℕ → Session → Result
  checkout_rfp obj none s = raised s
  checkout_rfp obj (some i) s = for_rfp (find_rfp s i) obj s

  unfoldable pub on_checkout : Obj → Session → Result
  on_checkout obj s =
      if str_eq obj.rfp_id "" || str_eq obj.account_id ""
      then raised s
      else checkout_rfp obj (env.parse_uuid obj.rfp_id) s

  -- `sub = obj.get("subscription") or obj.get("id", "")`
  abbrev pub paid_ref : Obj → String
  paid_ref obj = if str_eq obj.subscription "" then obj.id else obj.subscription

  abbrev pub pay : Obj → Entitlement → Session → Result
  pay obj p s =
      let (period, changed) = paid_period env.now p.period_end (event_period_end obj) in
      let s' = update_entitlement p.id (λ e. record e { period_end = period; active = true }) s in
      if changed
      then returned plan_extended (audit Action.plan_extended (of_uuid p.id) none s')
      else returned plan_payment_confirmed
          (audit Action.plan_payment_confirmed (of_uuid p.id) none s')

  -- The plan of a reference, unless there is none or it was canceled.
  abbrev pub with_live_plan :
      Option Entitlement → (Entitlement → Session → Result) → Session → Result
  with_live_plan none f s = returned stored_no_matching_plan s
  with_live_plan (some p) f s =
      if plan_was_canceled s p.id then returned stored_canceled_plan s else f p s

  unfoldable pub on_invoice_paid : Obj → Session → Result
  on_invoice_paid obj s = with_live_plan (find_plan s (paid_ref obj)) (pay obj) s

  abbrev pub notify : Option Account → Session → Result
  notify none s = returned plan_marked_inactive s
  notify (some a) s =
      if env.has_mailer
      then if env.sends a.email
        then returned plan_marked_inactive (record s { outbox = s.outbox ++ a.email ∷ [] })
        else raised s
      else returned plan_marked_inactive s

  abbrev pub fail_payment : Entitlement → Session → Result
  fail_payment p s =
      let s' =
        audit Action.plan_payment_failed (of_uuid p.id) none
          (update_entitlement p.id (λ e. record e { active = false }) s) in
      notify (first (λ (a : Account). a.id == p.account_id) s'.accounts) s'

  unfoldable pub on_payment_failed : Obj → Session → Result
  on_payment_failed obj s = with_live_plan (find_plan s obj.subscription) fail_payment s

  abbrev pub cancel : Option Entitlement → Session → Result
  cancel none s = returned stored_no_matching_plan s
  cancel (some p) s = returned plan_canceled (
      audit Action.plan_canceled (of_uuid p.id) none
        (update_entitlement p.id (λ e. record e { active = false; period_end = some env.now }) s))

  unfoldable pub on_subscription_deleted : Obj → Session → Result
  on_subscription_deleted obj s = cancel (find_plan s obj.id) s

  -- `obj.get("status", "active") in ("active", "trialing")`
  abbrev pub is_live_status : Option String → Bool
  is_live_status none = true
  is_live_status (some st) = str_eq st "active" || str_eq st "trialing"

  abbrev pub synced_period : Option ℕ → Option ℕ → Option ℕ
  synced_period none old = old
  synced_period (some v) old = some (seconds v)

  abbrev pub sync : Obj → Entitlement → Session → Result
  sync obj p s = returned plan_synced (
      audit Action.plan_synced (of_uuid p.id) none (
        update_entitlement p.id
          (λ e. record e {
            active = is_live_status obj.status;
            period_end = synced_period (truthy obj.current_period_end) e.period_end;
          })
          s))

  unfoldable pub on_subscription_updated : Obj → Session → Result
  on_subscription_updated obj s = with_live_plan (find_plan s obj.id) (sync obj) s

  unfoldable pub dispatch : EventType → Obj → Session → Result
  dispatch checkout_session_completed obj s = on_checkout obj s
  dispatch invoice_paid obj s = on_invoice_paid obj s
  dispatch invoice_payment_failed obj s = on_payment_failed obj s
  dispatch subscription_deleted obj s = on_subscription_deleted obj s
  dispatch subscription_updated obj s = on_subscription_updated obj s
  dispatch other obj s = returned stored_unhandled s

  unfoldable pub process_event : Event → Session → Result
  unfolding dispatch
  process_event event s = dispatch event.type event.obj s
