-- ===== src/Tests/Limits.antt =====
-- app/core/ratelimit.py and app/billing/entitlement.py at concrete inputs.
use rfp_shred.Prelude.{
  List, arith, false, if◌then◌else◌, length, min, none, refl, some, ◌++◌, ◌==◌, ◌≡◌, ◌≤◌,
}
use rfp_shred.Models.{Requirement}
use rfp_shred.RateLimit.{Buckets, Bucket, hit, reset}
use rfp_shred.RateLimit.Window.{granted, burst, burst-granted}
use rfp_shred.Billing.Gate.{is_entitled, visible_rows, requirement_count}
use rfp_shred.Billing.Gate.Preview.{matrix, visible_rows_complete}
use rfp_shred.Tests.Samples.{locked_rfp, twelve_rows}

abbrev no_buckets : Buckets
no_buckets k = none

abbrev full_bucket : Buckets
full_bucket k = if k == 1 then some (record { count = 3; window_start = 4 }) else none

full_bucket_behind : (b : Bucket) → full_bucket 1 ≡ some b → b.window_start ≤ 5
full_bucket_behind b e = ground arith

full_bucket_refuses : (hit 5 1 3 60 full_bucket).0.0 ≡ false
unfolding hit
full_bucket_refuses = refl

burst-granted_example : granted (burst 7 5 1 3 60 (reset full_bucket)).0 ≡ min 7 3
burst-granted_example = burst-granted 7 5 1 3 60 full_bucket (omega arith)

visible_rows_complete_example :
    (rest : List Requirement) × ((visible_rows 9 twelve_rows 2 locked_rfp).rows ++ rest
      ≡ matrix twelve_rows locked_rfp)
    × (length rest ≡ (visible_rows 9 twelve_rows 2 locked_rfp).locked_count)
visible_rows_complete_example = visible_rows_complete 9 twelve_rows 2 locked_rfp

twelve_rows_locked : is_entitled 9 twelve_rows 2 locked_rfp ≡ false
unfolding is_entitled requirement_count
twelve_rows_locked = refl
