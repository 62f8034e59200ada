-- ===== src/Billing/Checkout.antt =====
-- app/billing/checkout.py: `create_checkout`. The client that opens the session at Stripe is not part
-- of it: what it is called with is the result.
use rfp_shred.Prelude.{Option, arith, false, if◌then◌else◌, leb, none, some, ℕ, ◌==◌, ◌↔◌, ◌≡◌}
use rfp_shred.Models.{Session, Rfp, Kind}
use rfp_shred.Billing.Gate.{requirement_count, is_entitled}
use rfp_shred.Billing.Gate.Preview.{locked_needs_more}

-- The metadata of the session, and the kind that selects its price.
pub record CheckoutRequest : Type 0 where
  pub rfp_id : ℕ
  pub account_id : ℕ
  pub kind : Kind

-- `CheckoutRejected`, with the status of each.
pub data Checkout : Type 0 where
  rejected : (status : ℕ) → Checkout
  accepted : CheckoutRequest → Checkout

-- A kind that is neither "single" nor "plan" is `none`.
unfoldable pub create_checkout : ℕ → Session → ℕ → Rfp → Option Kind → Checkout
create_checkout now s account_id rfp none = rejected 422
create_checkout now s account_id rfp (some kind) =
    if requirement_count s rfp.id == 0
    then rejected 409
    else if leb (requirement_count s rfp.id) 10
    then rejected 409
    else if is_entitled now s account_id rfp
    then rejected 409
    else accepted (record { rfp_id = rfp.id; account_id = account_id; kind = kind })

-- Nobody pays for what is open, and whoever is locked out can pay: a checkout of a known kind is
-- accepted exactly if the caller is not entitled to the matrix, and it names that matrix, the
-- caller and the kind.
pub create_checkout_iff :
    (now : ℕ) (s : Session) (account_id : ℕ) (rfp : Rfp) (kind : Kind)
    → (create_checkout now s account_id rfp (some kind)
        ≡ accepted (record { rfp_id = rfp.id; account_id = account_id; kind = kind }))
      ↔ (is_entitled now s account_id rfp ≡ false)
unfolding create_checkout
create_checkout_iff now s account_id rfp kind = (locked_of_accepted, accepted_of_locked)
  where
    locked_of_accepted :
        create_checkout now s account_id rfp (some kind)
          ≡ accepted (record { rfp_id = rfp.id; account_id = account_id; kind = kind })
        → is_entitled now s account_id rfp ≡ false
    locked_of_accepted h = ground arith

    accepted_of_locked :
        is_entitled now s account_id rfp ≡ false
        → create_checkout now s account_id rfp (some kind)
          ≡ accepted (record { rfp_id = rfp.id; account_id = account_id; kind = kind })
    accepted_of_locked h =
        let more = locked_needs_more now s account_id rfp h in ground (arith, more)
