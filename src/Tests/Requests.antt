-- ===== src/Tests/Requests.antt =====
-- app/web, app/billing/checkout.py and app/core/maintenance.py at concrete inputs.
use rfp_shred.Prelude.{
  Bool, String, [], codes, false, keep, none, some, true, ℕ, ◌↔◌, ◌∷◌, ◌≡◌, ◌≤◌, ◌⊎◌,
}
use rfp_shred.Models.{Session, single, days}
use rfp_shred.RateLimit.{Buckets}
use rfp_shred.Billing.Gate.{is_entitled}
use rfp_shred.Billing.Checkout.{create_checkout, accepted, create_checkout_iff}
use rfp_shred.Maintenance.{enforce_source_retention}
use rfp_shred.Maintenance.Retention.{is_retained, enforce_source_retention-retained}
use rfp_shred.Web.UploadGuard.{
  App, receive, start_response, finish, fail, body_too_large, Guard, try_admit,
}
use rfp_shred.Web.UploadGuard.Admission.{Reachable, idle, arrives, admission_bounded}
use rfp_shred.Web.RowPatch.{Payload, patch_row}
use rfp_shred.Web.RowPatch.Guards.{IsAllowed, patch_row-IsAllowed}
use rfp_shred.Tests.Samples.{locked_rfp, unlocked_rfp, plant, twelve_rows}

-- An application that reads two parts of a body and answers.
abbrev reader : App
reader = receive (receive (start_response finish) (fail body_too_large)) (fail body_too_large)

abbrev guard : Guard
guard = record { max_request_bytes = 10; max_concurrent = 2 }

one_upload : Reachable guard 1 1
unfolding try_admit
one_upload = arrives {active = 0} {flying = 0} idle

admission_bounded_example : ◌≡◌ {A = ℕ} 1 1 × (1 ≤ 2)
admission_bounded_example = admission_bounded guard 1 1 one_upload

abbrev payload : Payload
payload = record { verified = some true; response = some (codes "yes"); tags = none }

abbrev no_buckets : Buckets
no_buckets k = none

patch_row-IsAllowed_example :
    ((patch_row 8 2 payload 5 (some 3) no_buckets plant).0.1 ≡ plant) ⊎ IsAllowed 8 2 (some 3) plant
patch_row-IsAllowed_example = patch_row-IsAllowed 8 2 payload plant 5 (some 3) no_buckets

create_checkout_iff_example :
    (create_checkout 9 twelve_rows 2 locked_rfp (some single)
      ≡ accepted (record { rfp_id = 1; account_id = 2; kind = single }))
    ↔ (is_entitled 9 twelve_rows 2 locked_rfp ≡ false)
create_checkout_iff_example = create_checkout_iff 9 twelve_rows 2 locked_rfp single

abbrev removable : String → Bool
removable path = true

abbrev stocked : Session
stocked = record plant {
  rfps = record locked_rfp { retain_source = true; stored_path = some "a" } ∷ unlocked_rfp ∷ [];
}

enforce_source_retention-retained_example :
    keep is_retained (enforce_source_retention removable (days 40) stocked).1.rfps
    ≡ keep is_retained stocked.rfps
enforce_source_retention-retained_example =
    enforce_source_retention-retained removable (days 40) stocked
