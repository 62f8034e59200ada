-- ===== src/Billing/Webhook/Period.antt =====
-- app/billing/webhook.py: how a paid invoice moves the end of a plan's period.
use rfp_shred.Prelude.{
  ℕ, ◌+◌, ◌≤◌, ◌<◌, ◌≡◌, refl, ◌⊎◌, inl, inr, false, Option, none, some, arith, ltb, ltb→lt,
  Bool-cases,
}
use rfp_shred.Models.{days}
use rfp_shred.Billing.Webhook.Event.{paid_period}

-- The earliest end that a paid invoice may leave: the end that Stripe names, or the next instant.
abbrev pub earliest_end : ℕ → Option ℕ → ℕ
earliest_end now none = now + 1
earliest_end now (some c) = c

-- A paid invoice never shortens a period: the new end is no earlier than the old one, no earlier
-- than the end that Stripe names, and later than now if Stripe names none. It is one
-- of these: the old end, Stripe's, or thirty days from now.
paid_period-grows :
    (now t : ℕ) (canonical : Option ℕ)
    → (stop : ℕ) × ((paid_period now (some t) canonical).0 ≡ some stop)
      × (t ≤ stop)
      × (earliest_end now canonical ≤ stop)
      × ((stop ≡ t) ⊎ (canonical ≡ some stop) ⊎ (stop ≡ now + days 30))
unfolding paid_period
paid_period-grows now t none = elim (Bool-cases (ltb now t)) [
  | inl e ↦ rw e (t, refl, omega arith, omega (arith, ltb→lt now t e), inl refl)
  | inr e ↦ rw e (now + days 30, refl, ground arith, omega arith, inr (inr refl))
]
paid_period-grows now t (some c) = elim (Bool-cases (ltb t c)) [
  | inl e ↦ rw e (c, refl, ground arith, omega arith, inr (inl refl))
  | inr e ↦ rw e (t, refl, omega arith, ground arith, inl refl)
]

-- The invoice that confirms a period does not extend it: once a paid invoice has been applied, the
-- same invoice, applied at an instant when the period still runs or with the end that
-- Stripe named, changes nothing and says so.
paid_period-replay :
    (now later stop : ℕ) (current canonical : Option ℕ)
    → (paid_period now current canonical).0 ≡ some stop
    → later < stop
    → paid_period later (some stop) canonical ≡ (some stop, false)
unfolding paid_period
paid_period-replay now later stop current canonical h k = ground arith
