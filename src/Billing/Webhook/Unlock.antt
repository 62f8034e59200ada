-- ===== src/Billing/Webhook/Unlock.antt =====
-- app/billing/webhook.py: what a completed checkout unlocks.
use rfp_shred.Prelude.{
  ℕ, ◌≡◌, refl, inl, inr, true, false, Option, none, some, is_some, str_eq, List, [], ◌∷◌, arith,
  ◌==◌, ◌||◌, first, update_first, first-passes, first-update_first, Bool-cases, ==_iff,
  any-append_last, eq_iff, ap, ◌∙◌, sym, subst,
}
use rfp_shred.Models.{Session, Rfp, Kind, single, plan}
use rfp_shred.Billing.Gate.{is_entitled}
use rfp_shred.Billing.Webhook.Event.{
  Event, Obj, returned, session_of, find_rfp, update_rfp, EventType, checkout_session_completed,
  invoice_paid, invoice_payment_failed, subscription_deleted, subscription_updated, other,
  entitlement_granted,
}
use rfp_shred.Billing.Webhook.Process.{
  Env, process_event, dispatch, on_checkout, on_invoice_paid, on_payment_failed,
  on_subscription_deleted, on_subscription_updated, already_granted, in_refs, new_entitlement,
  kind_or_single, unlock, finish_checkout, grant, for_rfp, checkout_rfp,
}

module _ (env : Env) where
  -- The table of solicitations after a handler: as before, or with one solicitation unlocked.
  data RfpsAfter (s : Session) (s' : Session) : Type 0 where
    same : s'.rfps ≡ s.rfps → RfpsAfter s s'
    unlocked : (i : ℕ) → s'.rfps ≡ (update_rfp i (unlock env) s).rfps → RfpsAfter s s'

  finish_checkout-RfpsAfter :
      (account : Option ℕ) (rfp : Rfp) (s : Session)
      → (session_of (finish_checkout env account rfp s)).rfps
        ≡ (update_rfp rfp.id (unlock env) s).rfps
  finish_checkout-RfpsAfter none rfp s = refl
  finish_checkout-RfpsAfter (some a) rfp s = refl

  grant-RfpsAfter :
      (account : Option ℕ) (obj : Obj) (rfp : Rfp) (s : Session)
      → RfpsAfter s (session_of (grant env account obj rfp s))
  grant-RfpsAfter none obj rfp s = elim (Bool-cases (already_granted s obj.id obj.subscription)) [
    | inl e ↦ rw e (unlocked rfp.id refl)
    | inr e ↦ rw e (same refl)
  ]
  grant-RfpsAfter (some a) obj rfp s =
      elim (Bool-cases (already_granted s obj.id obj.subscription)) [
        | inl e ↦ rw e (unlocked rfp.id refl)
        | inr e ↦ rw e (unlocked rfp.id refl)
      ]

  checkout_rfp-RfpsAfter :
      (obj : Obj) (i : Option ℕ) (s : Session) → RfpsAfter s (session_of (checkout_rfp env obj i s))
  checkout_rfp-RfpsAfter obj none s = same refl
  checkout_rfp-RfpsAfter obj (some i) s = for_any (find_rfp s i)
    where
      for_any : (o : Option Rfp) → RfpsAfter s (session_of (for_rfp env o obj s))
      for_any none = same refl
      for_any (some rfp) = grant-RfpsAfter (env.parse_uuid obj.account_id) obj rfp s

  rfps-dispatch :
      (t : EventType) (obj : Obj) (s : Session) → RfpsAfter s (session_of (dispatch env t obj s))
  unfolding dispatch on_checkout on_invoice_paid on_payment_failed on_subscription_deleted
      on_subscription_updated
  rfps-dispatch checkout_session_completed obj s =
      elim (Bool-cases (str_eq obj.rfp_id "" || str_eq obj.account_id "")) [
        | inl e ↦ rw e (same refl)
        | inr e ↦ rw e (checkout_rfp-RfpsAfter obj (env.parse_uuid obj.rfp_id) s)
      ]
  rfps-dispatch invoice_paid obj s = same (ground arith)
  rfps-dispatch invoice_payment_failed obj s = same (ground arith)
  rfps-dispatch subscription_deleted obj s = same (ground arith)
  rfps-dispatch subscription_updated obj s = same (ground arith)
  rfps-dispatch other obj s = same refl

  unlocked_at-unlock :
      (q : Rfp) (t : ℕ) → q.unlocked_at ≡ some t → (unlock env q).unlocked_at ≡ some t
  unlocked_at-unlock q t h = ground arith

  first-unlock :
      (i j t : ℕ) (r : Rfp) (rs : List Rfp)
      → first (λ (q : Rfp). q.id == i) rs ≡ some r
      → r.unlocked_at ≡ some t
      → (r' : Rfp) × (first
            (λ (q : Rfp). q.id == i)
            (update_first (λ (q : Rfp). q.id == j) (unlock env) rs)
          ≡ some r')
        × (r'.unlocked_at ≡ some t)
  first-unlock i j t r [] h k = absurd (none_some h)
    where
      none_some : none ≡ some r → ⊥
      none_some e = cc
  first-unlock i j t r (q ∷ rs) h k = elim (Bool-cases (q.id == i)) [
    | inl e ↦
        let found : some q ≡ some r = rw e at h in
        let kept : q.unlocked_at ≡ some t = ground arith in
        elim (Bool-cases (q.id == j)) [
          | inl e' ↦ rw e' (unlock env q, rw e refl, unlocked_at-unlock q t kept)
          | inr e' ↦ rw e' (q, rw e refl, kept)
        ]
    | inr e ↦
        let (r', found, kept) = first-unlock i j t r rs (rw e at h) k in
        elim (Bool-cases (q.id == j)) [
          | inl e' ↦ rw e' (r, rw e (rw e at h), k)
          | inr e' ↦ rw e' (r', rw e found, kept)
        ]
  ]

  -- An unlock is never taken back or moved: no event, whatever its handler does, changes the
  -- `unlocked_at` of a solicitation that has one.
  process_event-unlocked :
      (event : Event) (s : Session) (i t : ℕ) (r : Rfp)
      → find_rfp s i ≡ some r
      → r.unlocked_at ≡ some t
      → (r' : Rfp) × (find_rfp (session_of (process_event env event s)) i ≡ some r')
        × (r'.unlocked_at ≡ some t)
  unfolding process_event
  process_event-unlocked event s i t r h k = elim (rfps-dispatch event.type event.obj s) [
    | same e ↦ (r, rw e h, k)
    | unlocked j e ↦ rw e (first-unlock i j t r s.rfps h k)
  ]

  unlock-is_some : (q : Rfp) → is_some (unlock env q).unlocked_at ≡ true
  unlock-is_some q = ground arith

  entitled_after_unlock :
      (now account_id : ℕ) (s : Session) (q : Rfp)
      → is_some q.unlocked_at ≡ true
      → is_entitled now s account_id q ≡ true
  unfolding is_entitled
  entitled_after_unlock now account_id s q h = rw h refl

  find_rfp-unlock :
      (i : ℕ) (rfp : Rfp) (s : Session)
      → find_rfp s i ≡ some rfp
      → find_rfp (update_rfp rfp.id (unlock env) s) i ≡ some (unlock env rfp)
  find_rfp-unlock i rfp s found =
      let passes = first-passes (λ (r : Rfp). r.id == i) s.rfps rfp found in
      let same : rfp.id ≡ i = (==_iff rfp.id i).0 passes in
      subst
        (λ j.
          first (λ (r : Rfp). r.id == i) (update_first (λ (r : Rfp). r.id == j) (unlock env) s.rfps)
          ≡ some (unlock env rfp))
        (sym same)
        (first-update_first (λ (r : Rfp). r.id == i) (unlock env) s.rfps rfp found passes)

  new_entitlement-in_refs :
      (a : ℕ) (k : Kind) (rfp : Rfp) (obj : Obj)
      → str_eq obj.id "" ≡ false
      → in_refs obj.id obj.subscription (new_entitlement env a k rfp obj) ≡ true
  new_entitlement-in_refs a single rfp obj h = ground (arith, eq_iff obj.id obj.id)
  new_entitlement-in_refs a plan rfp obj h =
      ground (arith, eq_iff obj.id obj.id, eq_iff obj.subscription obj.subscription)

  grant-returns :
      (a : ℕ) (obj : Obj) (rfp : Rfp) (s : Session)
      → (s' : Session) × (grant env (some a) obj rfp s ≡ returned entitlement_granted s')
        × (s'.rfps ≡ (update_rfp rfp.id (unlock env) s).rfps)
        × (str_eq obj.id "" ≡ false → already_granted s' obj.id obj.subscription ≡ true)
  unfolding already_granted
  grant-returns a obj rfp s = elim (Bool-cases (already_granted s obj.id obj.subscription)) [
    | inl e ↦ rw e (_, refl, refl, λ _. e)
    | inr e ↦ rw e (
      _,
      refl,
      refl,
      λ h.
          any-append_last (in_refs obj.id obj.subscription) s.entitlements _
            (new_entitlement-in_refs a (kind_or_single env obj.kind) rfp obj h),
    )
  ]

  -- A completed checkout with both ids in its metadata, for a solicitation that exists, is granted,
  -- raises nothing, and opens the matrix: the solicitation is unlocked, so from then on
  -- every account that asks is entitled to it, at any instant.
  pub on_checkout-opens :
      (obj : Obj) (i a : ℕ) (rfp : Rfp) (s : Session)
      → (str_eq obj.rfp_id "" || str_eq obj.account_id "") ≡ false
      → env.parse_uuid obj.rfp_id ≡ some i
      → env.parse_uuid obj.account_id ≡ some a
      → find_rfp s i ≡ some rfp
      → (s' : Session) × (rfp' : Rfp) × (on_checkout env obj s ≡ returned entitlement_granted s')
        × (find_rfp s' i ≡ some rfp')
        × ((now account_id : ℕ) → is_entitled now s' account_id rfp' ≡ true)
  unfolding on_checkout
  on_checkout-opens obj i a rfp s given rfp_parsed account_parsed found =
      let (s', granted, table, _) = grant-returns a obj rfp s in
      (
        s',
        unlock env rfp,
        rw given (rw rfp_parsed (rw found (rw account_parsed granted))),
        ap (first (λ (r : Rfp). r.id == i)) table ∙ find_rfp-unlock i rfp s found,
        λ now account_id.
            entitled_after_unlock now account_id s' (unlock env rfp) (unlock-is_some rfp),
      )

granted_already :
    (later : Env) (obj : Obj) (s : Session)
    → already_granted s obj.id obj.subscription ≡ true
    → (session_of (on_checkout later obj s)).entitlements ≡ s.entitlements
unfolding on_checkout
granted_already later obj s h = ground arith

-- A checkout is granted once: when its event comes again under another event id, at another time,
-- and whatever ids new rows would get, no second entitlement is added. The checkout's session
-- id is not empty.
pub on_checkout-once :
    (env later : Env) (obj : Obj) (i a : ℕ) (rfp : Rfp) (s : Session)
    → (str_eq obj.rfp_id "" || str_eq obj.account_id "") ≡ false
    → str_eq obj.id "" ≡ false
    → env.parse_uuid obj.rfp_id ≡ some i
    → env.parse_uuid obj.account_id ≡ some a
    → find_rfp s i ≡ some rfp
    → let s' = session_of (on_checkout env obj s) in
      (session_of (on_checkout later obj s')).entitlements ≡ s'.entitlements
unfolding on_checkout
on_checkout-once env later obj i a rfp s given named rfp_parsed account_parsed found =
    let (s', granted, _, marked) = grant-returns env a obj rfp s in
    let ends : session_of (on_checkout env obj s) ≡ s' =
      rw given (rw rfp_parsed (rw found (rw account_parsed (ap session_of granted)))) in
    rw ends (granted_already later obj s' (marked named))
