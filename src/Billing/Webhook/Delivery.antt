-- ===== src/Billing/Webhook/Delivery.antt =====
-- app/billing/webhook.py: what repeated deliveries of one event do.
use rfp_shred.Prelude.{
  false, true, All-update_first, All-append, All-first, All, ◌≤◌, none, [], ◌∷◌, first-append_last,
  ◌++◌, Option, inr, first-update_first, inl, sym, ◌∙◌, ◌+◌, update_first, leb, subst, first,
  Bool-cases, eq_iff, ap, first-passes, some, ◌≡◌, refl, Bool, String, str_eq, arith,
}
use rfp_shred.Models.{StripeStatus, Session, StripeEvent}
use rfp_shred.Billing.Webhook.Event.{
  Outcome, raised, returned, Result, Event, EventType, Obj, session_of, checkout_session_completed,
  invoice_paid, invoice_payment_failed, subscription_deleted, subscription_updated, other,
}
use rfp_shred.Billing.Webhook.Process.{
  Env, process_event, dispatch, on_checkout, on_invoice_paid, on_payment_failed,
  on_subscription_deleted, on_subscription_updated,
}
use rfp_shred.Billing.Webhook.Handle.{
  missing_event_id, already_processed, http_status, handle_webhook, Reply, done, for_event,
  by_status, new_event, mark_processed, count_failure, attempt, conclude, fail_event, update_event,
  find_event,
}

-- No handler touches the table of Stripe events.
stripe_events-dispatch :
    (env : Env) (t : EventType) (obj : Obj) (s : Session)
    → (session_of (dispatch env t obj s)).stripe_events ≡ s.stripe_events
unfolding dispatch on_checkout on_invoice_paid on_payment_failed on_subscription_deleted
    on_subscription_updated
stripe_events-dispatch env checkout_session_completed obj s = ground arith
stripe_events-dispatch env invoice_paid obj s = ground arith
stripe_events-dispatch env invoice_payment_failed obj s = ground arith
stripe_events-dispatch env subscription_deleted obj s = ground arith
stripe_events-dispatch env subscription_updated obj s = ground arith
stripe_events-dispatch env other obj s = refl

stripe_events-process_event :
    (env : Env) (event : Event) (s : Session)
    → (session_of (process_event env event s)).stripe_events ≡ s.stripe_events
unfolding process_event
stripe_events-process_event env event s = stripe_events-dispatch env event.type event.obj s

abbrev is_named : String → StripeEvent → Bool
is_named i e = str_eq e.event_id i

-- The row of an event after its handler.
abbrev row_after : Env → Result → StripeEvent → StripeEvent
row_after env (returned o s) e = mark_processed env e
row_after env (raised s) e = count_failure e

find_event-update :
    (i : String) (f : StripeEvent → StripeEvent) (e : StripeEvent) (s : Session)
    → find_event s i ≡ some e
    → (f e).event_id ≡ e.event_id
    → find_event (update_event e.event_id f s) i ≡ some (f e)
find_event-update i f e s found same =
    let passes = first-passes (is_named i) s.stripe_events e found in
    let named : e.event_id ≡ i = (eq_iff e.event_id i).0 passes in
    subst (λ j. first (is_named i) (update_first (is_named j) f s.stripe_events) ≡ some (f e))
      (sym named) (first-update_first (is_named i) f s.stripe_events e found (rw same passes))

find_event-fail_event :
    (i : String) (e : StripeEvent) (s : Session)
    → find_event s i ≡ some e
    → find_event (fail_event e s) i ≡ some (count_failure e)
find_event-fail_event i e s found =
    let changed = find_event-update i count_failure e s found (ground arith) in
    elim (Bool-cases (leb 3 (e.attempts + 1))) [
      | inl h ↦ rw h (rw h at changed)
      | inr h ↦ rw h (rw h at changed)
    ]

module _ (env : Env) (event : Event) where
  find_event-conclude :
      (e : StripeEvent) (r : Result)
      → find_event (session_of r) event.id ≡ some e
      → find_event (conclude env e r).1 event.id ≡ some (row_after env r e)
  find_event-conclude e (returned o s) found =
      find_event-update event.id (mark_processed env) e s found refl
  find_event-conclude e (raised s) found = find_event-fail_event event.id e s found

  find_event-attempt :
      (e : StripeEvent) (s : Session)
      → find_event s event.id ≡ some e
      → find_event (attempt env e event s).1 event.id
        ≡ some (row_after env (process_event env event s) e)
  find_event-attempt e s found =
      find_event-conclude e (process_event env event s)
        (ap (first (is_named event.id)) (stripe_events-process_event env event s) ∙ found)

  conclude-done :
      (e : StripeEvent) (r : Result) (o : Outcome) (s' : Session)
      → find_event (session_of r) event.id ≡ some e
      → conclude env e r ≡ (done o, s')
      → find_event s' event.id ≡ some (mark_processed env e)
  conclude-done e (returned x s) o s' found h =
      ap (λ (p : Reply × Session). find_event p.1 event.id) (sym h)
      ∙ find_event-conclude e (returned x s) found
  conclude-done e (raised s) o s' found h = cc

  attempt-done :
      (e : StripeEvent) (s : Session) (o : Outcome) (s' : Session)
      → find_event s event.id ≡ some e
      → attempt env e event s ≡ (done o, s')
      → find_event s' event.id ≡ some (mark_processed env e)
  attempt-done e s o s' found =
      conclude-done e (process_event env event s) o s'
        (ap (first (is_named event.id)) (stripe_events-process_event env event s) ∙ found)

  by_status-done :
      (st : StripeStatus) (e : StripeEvent) (s : Session) (o : Outcome) (s' : Session)
      → find_event s event.id ≡ some e
      → by_status env st e event s ≡ (done o, s')
      → find_event s' event.id ≡ some (mark_processed env e)
  by_status-done StripeStatus.processing e s o s' found h = attempt-done e s o s' found h
  by_status-done StripeStatus.processed e s o s' found h = cc
  by_status-done StripeStatus.dead_lettered e s o s' found h = cc

  find_event-new :
      (s : Session)
      → find_event s event.id ≡ none
      → find_event
          (record s { stripe_events = s.stripe_events ++ new_event event.id ∷ [] })
          event.id
        ≡ some (new_event event.id)
  find_event-new s absent =
      first-append_last (is_named event.id) s.stripe_events (new_event event.id) absent
        ((eq_iff event.id event.id).1 refl)

  for_event-done :
      (found : Option StripeEvent) (s : Session) (o : Outcome) (s' : Session)
      → find_event s event.id ≡ found
      → for_event env found event s ≡ (done o, s')
      → (e : StripeEvent) × (find_event s' event.id ≡ some (mark_processed env e))
  for_event-done none s o s' e h =
      (new_event event.id, attempt-done (new_event event.id) _ o s' (find_event-new s e) h)
  for_event-done (some r) s o s' e h = (r, by_status-done r.status r s o s' e h)

-- An event is applied once. After a delivery that was answered with an outcome, every further
-- delivery of the same event is answered `already_processed`, with status 200, and
-- leaves the session as it is.
pub handle_webhook-once :
    (env later : Env) (event : Event) (s s' : Session) (o : Outcome)
    → handle_webhook env true (some event) s ≡ (done o, s')
    → (handle_webhook later true (some event) s' ≡ (already_processed, s'))
      × (http_status (handle_webhook later true (some event) s').0 ≡ 200)
unfolding handle_webhook http_status
handle_webhook-once env later event s s' o h = elim (Bool-cases (str_eq event.id "")) [
  | inl e ↦
      let answer : ◌≡◌ {A = Reply × Session} (missing_event_id, s) (done o, s') = rw e at h in cc
  | inr e ↦
      let (r, found) = for_event-done env event (find_event s event.id) s o s' refl (rw e at h) in
      let same : for_event later (find_event s' event.id) event s' ≡ (already_processed, s') =
        rw found refl in
      rw e (same, ap (λ (p : Reply × Session). http_status p.0) same)
]

-- A row counts at most three attempts, and one that is still open fewer.
abbrev IsBounded : StripeEvent → Type 0
IsBounded e = (e.attempts ≤ 3) × (e.status ≡ StripeStatus.processing → e.attempts ≤ 2)

count_failure-IsBounded : (e : StripeEvent) → e.attempts ≤ 2 → IsBounded (count_failure e)
count_failure-IsBounded e h = elim (Bool-cases (leb 3 (e.attempts + 1))) [
  | inl k ↦ rw k (omega arith, λ c. cc)
  | inr k ↦ rw k (ground arith, λ c. ground arith)
]

abbrev pub AllBounded : Session → Type 0
AllBounded s = All IsBounded s.stripe_events

module _ (env : Env) (event : Event) where
  conclude-AllBounded :
      (e : StripeEvent) (r : Result)
      → e.attempts ≤ 2
      → find_event (session_of r) e.event_id ≡ some e
      → AllBounded (session_of r)
      → AllBounded (conclude env e r).1
  conclude-AllBounded e (returned o s) h found all =
      All-update_first IsBounded (is_named e.event_id) (mark_processed env) s.stripe_events e found
        (omega arith, λ c. cc) all
  conclude-AllBounded e (raised s) h found all =
      let kept =
        All-update_first IsBounded (is_named e.event_id) count_failure s.stripe_events e found
          (count_failure-IsBounded e h) all in
      elim (Bool-cases (leb 3 (e.attempts + 1))) [ inl k ↦ rw k kept | inr k ↦ rw k kept ]

  attempt-AllBounded :
      (e : StripeEvent) (s : Session)
      → e.attempts ≤ 2
      → find_event s e.event_id ≡ some e
      → AllBounded s
      → AllBounded (attempt env e event s).1
  attempt-AllBounded e s h found all =
      let table = stripe_events-process_event env event s in
      conclude-AllBounded e (process_event env event s) h
        (ap (first (is_named e.event_id)) table ∙ found) (subst (All IsBounded) (sym table) all)

  by_status-AllBounded :
      (st : StripeStatus) (e : StripeEvent) (s : Session)
      → e.status ≡ st
      → find_event s e.event_id ≡ some e
      → AllBounded s
      → AllBounded (by_status env st e event s).1
  by_status-AllBounded StripeStatus.processing e s open_ found all =
      attempt-AllBounded e s
        ((All-first IsBounded (is_named e.event_id) s.stripe_events e found all).1 open_) found all
  by_status-AllBounded StripeStatus.processed e s st found all = all
  by_status-AllBounded StripeStatus.dead_lettered e s st found all = all

  for_event-AllBounded :
      (o : Option StripeEvent) (s : Session)
      → find_event s event.id ≡ o
      → AllBounded s
      → AllBounded (for_event env o event s).1
  for_event-AllBounded none s found all =
      attempt-AllBounded (new_event event.id) _ (omega arith) (find_event-new env event s found)
        (All-append IsBounded s.stripe_events _ all ((omega arith, λ c. omega arith), tt))
  for_event-AllBounded (some e) s found all =
      let named =
        (eq_iff e.event_id event.id).0 (first-passes (is_named event.id) s.stripe_events e found) in
      by_status-AllBounded e.status e s refl
        (ap (λ i. first (is_named i) s.stripe_events) named ∙ found) all

-- Retries are bounded: if every stored event has at most three attempts, and fewer while it is
-- still open, so it is after any delivery, signed or not, well-formed or not.
handle_webhook-AllBounded :
    (env : Env) (verified : Bool) (parsed : Option Event) (s : Session)
    → AllBounded s
    → AllBounded (handle_webhook env verified parsed s).1
unfolding handle_webhook
handle_webhook-AllBounded env false parsed s all = all
handle_webhook-AllBounded env true none s all = all
handle_webhook-AllBounded env true (some event) s all = elim (Bool-cases (str_eq event.id "")) [
  | inl e ↦ rw e all
  | inr e ↦ rw e (for_event-AllBounded env event (find_event s event.id) s refl all)
]
