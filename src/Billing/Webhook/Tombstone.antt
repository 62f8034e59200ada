-- ===== src/Billing/Webhook/Tombstone.antt =====
-- app/billing/webhook.py: the deletion of a subscription, over later deliveries.
use rfp_shred.Prelude.{
  ℕ, ◌≡◌, ◌≢◌, refl, inl, inr, true, false, Option, none, some, List, [], ◌∷◌, arith, ◌==◌,
  if◌then◌else◌, any, any-append_left, All, All-append, All-map_list, Bool-cases, first, str_eq,
  ◌||◌,
}
use rfp_shred.Models.{
  Session, Entitlement, Action, of_uuid, audit, Account, Rfp, Kind, single, plan,
}
use rfp_shred.Billing.Webhook.Event.{
  truthy, Event, Obj, Result, session_of, EventType, plan_was_canceled, is_tombstone, find_plan,
  find_rfp, paid_period, event_period_end, update_entitlement, checkout_session_completed,
  invoice_paid, invoice_payment_failed, subscription_deleted, subscription_updated, other,
}
use rfp_shred.Billing.Webhook.Process.{
  Env, dispatch, process_event, on_checkout, on_invoice_paid, on_payment_failed,
  on_subscription_deleted, on_subscription_updated, with_live_plan, already_granted, fail_payment,
  pay, sync, notify, is_live_status, synced_period, cancel, finish_checkout, grant, new_entitlement,
  kind_or_single, checkout_rfp, for_rfp,
}

abbrev IsDead : ℕ → Entitlement → Type 0
IsDead p e = (e.id == p) ≡ true → e.active ≡ false

-- The entitlement `p` is inactive, and an audit event records that its subscription was deleted.
pub record IsCanceled (p : ℕ) (s : Session) : Type 0 where
  pub dead : All (IsDead p) s.entitlements
  pub tomb : any (is_tombstone p) s.audit_events ≡ true

-- A handler keeps a canceled entitlement canceled.
abbrev KeepsCanceled : ℕ → (Session → Result) → Type 0
KeepsCanceled p f = (s : Session) → IsCanceled p s → IsCanceled p (session_of (f s))

update-IsDead :
    (p i : ℕ) (f : Entitlement → Entitlement)
    → ((e : Entitlement) → (f e).id ≡ e.id)
    → i ≢ p
    → (e : Entitlement) → IsDead p e
    → IsDead p (if e.id == i then f e else e)
update-IsDead p i f keeps ne e h = ground (arith, keeps e)

audit-IsCanceled :
    (p q : ℕ) (action : Action) (s : Session)
    → IsCanceled p s
    → IsCanceled p (audit action (of_uuid q) none s)
audit-IsCanceled p q action s h = record {
  dead = h.dead;
  tomb = any-append_left (is_tombstone p) s.audit_events _ h.tomb;
}

module _ (env : Env) (p : ℕ) where
  -- A handler behind `with_live_plan` never sees the canceled entitlement.
  with_live_plan-KeepsCanceled :
      (o : Option Entitlement) (f : Entitlement → Session → Result)
      → ((q : Entitlement) → q.id ≢ p → KeepsCanceled p (f q))
      → KeepsCanceled p (with_live_plan env o f)
  with_live_plan-KeepsCanceled none f keeps s h = h
  with_live_plan-KeepsCanceled (some q) f keeps s h = elim (Bool-cases (plan_was_canceled s q.id)) [
    | inl e ↦ rw e h
    | inr e ↦ rw e (keeps q (λ same. unfold plan_was_canceled in cc (h.tomb, rw same at e)) s h)
  ]

  update-IsCanceled :
      (i : ℕ) (f : Entitlement → Entitlement) (s : Session)
      → ((e : Entitlement) → (f e).id ≡ e.id)
      → i ≢ p
      → IsCanceled p s
      → IsCanceled p (update_entitlement i f s)
  update-IsCanceled i f s keeps ne h = record {
    dead =
        All-map_list (IsDead p) (IsDead p) _ (update-IsDead p i f keeps ne) s.entitlements h.dead;
    tomb = h.tomb;
  }

  pay-KeepsCanceled : (obj : Obj) (q : Entitlement) → q.id ≢ p → KeepsCanceled p (pay env obj q)
  pay-KeepsCanceled obj q ne s h =
      let (period, changed) = paid_period env.now q.period_end (event_period_end obj) in
      let f : Entitlement → Entitlement = λ e. record e { period_end = period; active = true } in
      let kept = update-IsCanceled q.id f s (λ e. refl) ne h in
      elim (Bool-cases changed) [
        | inl e ↦ rw e (audit-IsCanceled p q.id _ (update_entitlement q.id f s) kept)
        | inr e ↦ rw e (audit-IsCanceled p q.id _ (update_entitlement q.id f s) kept)
      ]

  sync-KeepsCanceled : (obj : Obj) (q : Entitlement) → q.id ≢ p → KeepsCanceled p (sync env obj q)
  sync-KeepsCanceled obj q ne s h =
      let f : Entitlement → Entitlement = λ e. record e {
        active = is_live_status env obj.status;
        period_end = synced_period env (truthy obj.current_period_end) e.period_end;
      } in
      audit-IsCanceled p q.id Action.plan_synced (update_entitlement q.id f s)
        (update-IsCanceled q.id f s (λ e. refl) ne h)

  notify-KeepsCanceled : (o : Option Account) → KeepsCanceled p (notify env o)
  notify-KeepsCanceled none s h = h
  notify-KeepsCanceled (some a) s h = elim (Bool-cases env.has_mailer) [
    | inl e ↦ rw e (elim (Bool-cases (env.sends a.email)) [
      | inl e' ↦ rw e' (record { dead = h.dead; tomb = h.tomb })
      | inr e' ↦ rw e' h
    ])
    | inr e ↦ rw e h
  ]

  fail_payment-KeepsCanceled : (q : Entitlement) → q.id ≢ p → KeepsCanceled p (fail_payment env q)
  fail_payment-KeepsCanceled q ne s h =
      let f : Entitlement → Entitlement = λ e. record e { active = false } in
      let s' = audit Action.plan_payment_failed (of_uuid q.id) none (update_entitlement q.id f s) in
      notify-KeepsCanceled (first (λ (a : Account). a.id == q.account_id) s'.accounts) s' (
        audit-IsCanceled p q.id _ (update_entitlement q.id f s)
          (update-IsCanceled q.id f s (λ e. refl) ne h))

  cancel-KeepsCanceled : (o : Option Entitlement) → KeepsCanceled p (cancel env o)
  cancel-KeepsCanceled none s h = h
  cancel-KeepsCanceled (some q) s h =
      let f : Entitlement → Entitlement =
        λ e. record e { active = false; period_end = some env.now } in
      audit-IsCanceled p q.id _ (update_entitlement q.id f s) (record {
        dead =
            All-map_list (IsDead p) (IsDead p)
              (λ (e : Entitlement). if e.id == q.id then f e else e) (λ e d. ground arith)
              s.entitlements h.dead;
        tomb = h.tomb;
      })

  finish_checkout-KeepsCanceled :
      (account : Option ℕ) (rfp : Rfp) → KeepsCanceled p (finish_checkout env account rfp)
  finish_checkout-KeepsCanceled none rfp s h = record { dead = h.dead; tomb = h.tomb }
  finish_checkout-KeepsCanceled (some a) rfp s h = record {
    dead = h.dead;
    tomb = any-append_left (is_tombstone p) s.audit_events _ h.tomb;
  }

  module _ (fresh : env.new_id ≢ p) where
    grant-KeepsCanceled :
        (account : Option ℕ) (obj : Obj) (rfp : Rfp) → KeepsCanceled p (grant env account obj rfp)
    grant-KeepsCanceled none obj rfp s h =
        elim (Bool-cases (already_granted s obj.id obj.subscription)) [
          | inl e ↦ rw e (finish_checkout-KeepsCanceled none rfp s h)
          | inr e ↦ rw e h
        ]
    grant-KeepsCanceled (some a) obj rfp s h =
        elim (Bool-cases (already_granted s obj.id obj.subscription)) [
          | inl e ↦ rw e (finish_checkout-KeepsCanceled (some a) rfp s h)
          | inr e ↦ rw e (
              finish_checkout-KeepsCanceled (some a) rfp _ (record {
                dead =
                    All-append (IsDead p) s.entitlements _ h.dead
                      (new_entitlement-IsDead (kind_or_single env obj.kind) a rfp obj, tt);
                tomb = h.tomb;
              }))
        ]
      where
        new_entitlement-IsDead :
            (k : Kind) (a : ℕ) (rfp : Rfp) (obj : Obj) → IsDead p (new_entitlement env a k rfp obj)
        new_entitlement-IsDead single a rfp obj e = absurd (fresh (ground arith))
        new_entitlement-IsDead plan a rfp obj e = absurd (fresh (ground arith))

    for_rfp-KeepsCanceled : (o : Option Rfp) (obj : Obj) → KeepsCanceled p (for_rfp env o obj)
    for_rfp-KeepsCanceled none obj s h = h
    for_rfp-KeepsCanceled (some rfp) obj s h =
        grant-KeepsCanceled (env.parse_uuid obj.account_id) obj rfp s h

    checkout_rfp-KeepsCanceled :
        (obj : Obj) (i : Option ℕ) → KeepsCanceled p (checkout_rfp env obj i)
    checkout_rfp-KeepsCanceled obj none s h = h
    checkout_rfp-KeepsCanceled obj (some i) s h = for_rfp-KeepsCanceled (find_rfp s i) obj s h

    on_checkout-KeepsCanceled : (obj : Obj) → KeepsCanceled p (on_checkout env obj)
    unfolding on_checkout
    on_checkout-KeepsCanceled obj s h =
        elim (Bool-cases (str_eq obj.rfp_id "" || str_eq obj.account_id "")) [
          | inl e ↦ rw e h
          | inr e ↦ rw e (checkout_rfp-KeepsCanceled obj (env.parse_uuid obj.rfp_id) s h)
        ]

    dispatch-KeepsCanceled : (t : EventType) (obj : Obj) → KeepsCanceled p (dispatch env t obj)
    unfolding dispatch on_invoice_paid on_payment_failed on_subscription_deleted
        on_subscription_updated
    dispatch-KeepsCanceled checkout_session_completed obj s h = on_checkout-KeepsCanceled obj s h
    dispatch-KeepsCanceled invoice_paid obj s h =
        with_live_plan-KeepsCanceled _ (pay env obj) (pay-KeepsCanceled obj) s h
    dispatch-KeepsCanceled invoice_payment_failed obj s h =
        with_live_plan-KeepsCanceled _ (fail_payment env) fail_payment-KeepsCanceled s h
    dispatch-KeepsCanceled subscription_deleted obj s h =
        cancel-KeepsCanceled (find_plan s obj.id) s h
    dispatch-KeepsCanceled subscription_updated obj s h =
        with_live_plan-KeepsCanceled _ (sync env obj) (sync-KeepsCanceled obj) s h
    dispatch-KeepsCanceled other obj s h = h

-- A delivery: the environment it meets and the event. The session afterwards, raised or not.
unfoldable pub deliver_all : List (Env × Event) → Session → Session
deliver_all [] s = s
deliver_all ((env, event) ∷ rest) s = deliver_all rest (session_of (process_event env event s))

-- A subscription deletion is terminal. Once an entitlement is inactive and its deletion is
-- audited, no sequence of later events of any type, at any times, and whether their handlers return
-- or raise, makes it active again, if the ids given to new rows differ from its own.
pub deliver_all-IsCanceled :
    (p : ℕ) (deliveries : List (Env × Event)) (s : Session)
    → All (λ d. d.0.new_id ≢ p) deliveries
    → IsCanceled p s
    → IsCanceled p (deliver_all deliveries s)
unfolding deliver_all process_event
deliver_all-IsCanceled p [] s fresh h = h
deliver_all-IsCanceled p ((env, event) ∷ rest) s fresh h =
    deliver_all-IsCanceled p rest _ fresh.1
      (dispatch-KeepsCanceled env p fresh.0 event.type event.obj s h)
