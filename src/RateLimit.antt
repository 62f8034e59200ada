-- ===== src/RateLimit.antt =====
-- app/core/ratelimit.py: the in-memory limiter. `time.monotonic()` reads a clock of whole
-- nanoseconds, so an instant is a number of ticks and a window of `window_s` seconds is
-- `window_s * ticks_per_second` of them. The lock makes each call one step. The dictionary is a
-- function from the pair of name and key (a number that stands for the pair) to its bucket.
pub mod Window
use rfp_shred.Prelude.{
  ℕ, ◌+◌, ◌-◌, ◌*◌, ◌/◌, Bool, true, false, Option, none, some, ltb, leb, ◌==◌, if◌then◌else◌, max,
}

pub record Bucket : Type 0 where
  pub count : ℕ
  pub window_start : ℕ

abbrev pub Buckets : Type 0
Buckets = ℕ → Option Bucket

abbrev pub ticks_per_second : ℕ
ticks_per_second = 1_000_000_000

-- `bucket is None or now - bucket.window_start >= window_s`
abbrev pub expired : ℕ → ℕ → Bucket → Bool
expired now window_s b = leb (window_s * ticks_per_second) (now - b.window_start)

abbrev pub fresh_bucket : ℕ → Bucket
fresh_bucket now = record { count = 0; window_start = now }

-- The bucket that `hit` counts in.
abbrev pub current_bucket : ℕ → ℕ → Option Bucket → Bucket
current_bucket now window_s none = fresh_bucket now
current_bucket now window_s (some b) = if expired now window_s b then fresh_bucket now else b

-- `max(int(window_s - (now - bucket.window_start)) + 1, 1)`
unfoldable pub retry_after : ℕ → ℕ → Bucket → ℕ
retry_after now window_s b =
    max ((window_s * ticks_per_second - (now - b.window_start)) / ticks_per_second + 1) 1

abbrev pub put : ℕ → Bucket → Buckets → Buckets
put k b buckets j = if k == j then some b else buckets j

abbrev pub increment : Bucket → Bucket
increment b = record b { count = b.count + 1 }

abbrev pub verdict : ℕ → ℕ → ℕ → Bucket → Bool × ℕ
verdict now limit window_s b =
    if leb b.count limit then (true, 0) else (false, retry_after now window_s b)

unfoldable pub hit : (now k limit window_s : ℕ) → Buckets → (Bool × ℕ) × Buckets
hit now k limit window_s buckets =
    let bucket = increment (current_bucket now window_s (buckets k)) in
    (verdict now limit window_s bucket, put k bucket buckets)

abbrev pub peek_bucket : ℕ → ℕ → ℕ → Option Bucket → Bool × ℕ
peek_bucket now limit window_s none = (true, 0)
peek_bucket now limit window_s (some b) =
    if expired now window_s b
    then (true, 0)
    else if ltb b.count limit
    then (true, 0)
    else (false, retry_after now window_s b)

unfoldable pub peek : (now k limit window_s : ℕ) → Buckets → Bool × ℕ
peek now k limit window_s buckets = peek_bucket now limit window_s (buckets k)

unfoldable pub reset : Buckets → Buckets
reset buckets k = none
