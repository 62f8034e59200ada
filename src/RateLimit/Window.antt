-- ===== src/RateLimit/Window.antt =====
-- app/core/ratelimit.py: what the limiter grants in one window and over several.
use rfp_shred.Prelude.{
  ℕ, zero, suc, ◌+◌, ◌-◌, ◌*◌, ◌≤◌, ◌<◌, ◌≡◌, refl, Bool, true, false, some, leb, arith, List, [],
  ◌∷◌, if◌then◌else◌, ◌≢◌, ==_refl, Option-cases, Bool-cases, inl, inr, ap, ◌∙◌, min,
}
use rfp_shred.RateLimit.{
  Bucket, Buckets, increment, verdict, fresh_bucket, ticks_per_second, expired, current_bucket,
  retry_after, hit, peek, reset,
}

-- A caller that makes `n` attempts on one key, all at the instant `now`; the answers in order.
unfoldable pub burst : (n now k limit window_s : ℕ) → Buckets → List Bool × Buckets
burst zero now k limit window_s buckets = ([], buckets)
burst (suc n) now k limit window_s buckets =
    let ((ok, wait), after) = hit now k limit window_s buckets in
    let (oks, final) = burst n now k limit window_s after in (ok ∷ oks, final)

-- How often `true` stands in a list of answers.
unfoldable pub granted : List Bool → ℕ
granted [] = 0
granted (true ∷ oks) = suc (granted oks)
granted (false ∷ oks) = granted oks

-- `peek` foresees the next attempt: it answers what `hit` would answer at that instant, if at
-- least one attempt is allowed at all.
peek-hit :
    (now k limit window_s : ℕ) (buckets : Buckets)
    → 0 < limit
    → peek now k limit window_s buckets ≡ (hit now k limit window_s buckets).0
unfolding hit peek retry_after
peek-hit now k limit window_s buckets h = ground arith

-- An attempt on one key changes the answers of no other key.
pub peek-hit_ne :
    (now later k j limit window_s : ℕ) (buckets : Buckets)
    → k ≢ j
    → peek later j limit window_s (hit now k limit window_s buckets).1
      ≡ peek later j limit window_s buckets
unfolding hit peek retry_after
peek-hit_ne now later k j limit window_s buckets h = ground arith

-- The clock has not gone back: no window of the key starts after `now`.
abbrev pub IsBehind : ℕ → ℕ → Buckets → Type 0
IsBehind now k buckets = (b : Bucket) → buckets k ≡ some b → b.window_start ≤ now

hit-own :
    (now k limit window_s : ℕ) (buckets : Buckets)
    → (hit now k limit window_s buckets).1 k
      ≡ some (increment (current_bucket now window_s (buckets k)))
unfolding hit
hit-own now k limit window_s buckets = rw ==_refl

expired_after_wait :
    (now window_s : ℕ) (b : Bucket)
    → b.window_start ≤ now
    → expired (now + retry_after now window_s b * ticks_per_second) window_s b ≡ true
unfolding retry_after
expired_after_wait now window_s b h = ground arith

current_bucket_behind :
    (now k window_s : ℕ) (buckets : Buckets)
    → IsBehind now k buckets
    → (current_bucket now window_s (buckets k)).window_start ≤ now
current_bucket_behind now k window_s buckets h = elim (Option-cases (buckets k)) [
  | inl e ↦ rw e (omega arith)
  | inr (b, e) ↦ rw e (elim (Bool-cases (expired now window_s b)) [
    | inl x ↦ rw x (omega arith)
    | inr x ↦ rw x (h b e)
  ])
]

-- Whoever is refused and waits for the announced number of seconds is let in, if the clock has not
-- gone back: the wait is at least one second and at most the window and one second more, and
-- when it has passed `peek` grants an attempt.
retry_after_suffices :
    (now k limit window_s : ℕ) (buckets : Buckets)
    → IsBehind now k buckets
    → (hit now k limit window_s buckets).0.0 ≡ false
    → (1 ≤ (hit now k limit window_s buckets).0.1)
      × ((hit now k limit window_s buckets).0.1 ≤ window_s + 1)
      × ((peek
            (now + (hit now k limit window_s buckets).0.1 * ticks_per_second)
            k
            limit
            window_s
            (hit now k limit window_s buckets).1).0
          ≡ true)
retry_after_suffices now k limit window_s buckets behind refused =
    let b : Bucket = increment (current_bucket now window_s (buckets k)) in
    let wait : (hit now k limit window_s buckets).0.1 ≡ retry_after now window_s b =
      unfold hit in ground arith in
    let own = hit-own now k limit window_s buckets in
    let over =
      expired_after_wait now window_s b (current_bucket_behind now k window_s buckets behind) in
    (
      rw wait (unfold retry_after in omega arith),
      rw wait (unfold retry_after in omega arith),
      rw wait (unfold peek in rw own (rw over)),
    )

-- The number of grants that `n` attempts can still get when `used` have been made.
abbrev room : ℕ → ℕ → ℕ → ℕ
room limit used n = if leb (used + n) limit then n else limit - used

granted-burst :
    (n now k limit window_s : ℕ) (buckets : Buckets)
    → let after = hit now k limit window_s buckets in
      granted (burst (suc n) now k limit window_s buckets).0 ≡ (
        if after.0.0
        then suc (granted (burst n now k limit window_s after.1).0)
        else granted (burst n now k limit window_s after.1).0)
unfolding burst granted
granted-burst n now k limit window_s buckets =
    elim (Bool-cases (hit now k limit window_s buckets).0.0) [ inl e ↦ rw e | inr e ↦ rw e ]

verdict-hit :
    (now k limit window_s : ℕ) (buckets : Buckets)
    → (hit now k limit window_s buckets).0
      ≡ verdict now limit window_s (increment (current_bucket now window_s (buckets k)))
unfolding hit
verdict-hit now k limit window_s buckets = refl

burst_running :
    (n now k limit window_s : ℕ) (b : Bucket) (buckets : Buckets)
    → current_bucket now window_s (buckets k) ≡ b
    → expired now window_s b ≡ false
    → granted (burst n now k limit window_s buckets).0 ≡ room limit b.count n
burst_running zero now k limit window_s b buckets h e = unfold burst granted in ground arith
burst_running (suc n) now k limit window_s b buckets h e =
    let (answer, after) = hit now k limit window_s buckets in
    let own : after k ≡ some (increment b) =
      hit-own now k limit window_s buckets ∙ ap (λ c. some (increment c)) h in
    let next : current_bucket now window_s (after k) ≡ increment b = rw own (rw e) in
    let rest = burst_running n now k limit window_s (increment b) after next e in
    let said : answer ≡ verdict now limit window_s (increment b) =
      verdict-hit now k limit window_s buckets
      ∙ ap (λ c. verdict now limit window_s (increment c)) h in
    rw granted-burst (rw said (rw rest (ground arith)))

-- A window grants exactly `limit` attempts: of `n` attempts made at one instant on a key with no
-- window open, as after `reset`, the number granted is the smaller of `n` and `limit`. The window
-- is longer than zero seconds.
pub burst-granted :
    (n now k limit window_s : ℕ) (buckets : Buckets)
    → 0 < window_s
    → granted (burst n now k limit window_s (reset buckets)).0 ≡ min n limit
unfolding reset
burst-granted n now k limit window_s buckets h =
    burst_running n now k limit window_s (fresh_bucket now) (reset buckets) refl (ground arith)
    ∙ ground arith
