-- ===== src/Pipeline/Mine/Calls.antt =====
-- app/pipeline/mine.py: the state of a mining run and one call with its retries.
use rfp_shred.Prelude.{
  Bool, List, Option, Text, arith, if◌then◌else◌, ltb, min, refl, suc, zero, ℕ, ◌*◌, ◌+◌, ◌≡◌, ◌≤◌,
}
use rfp_shred.Pipeline.Items.{MineResult}

-- An `int` of the payload.
pub data PyInt : Type 0 where
  nonneg : ℕ → PyInt
  negative : ℕ → PyInt

-- `ChunkItem`
pub record ChunkItem : Type 0 where
  pub clause_id : Text
  pub section : Text
  pub page : PyInt
  pub text : Text
  pub excerpt : Text
  pub is_requirement : Bool

-- `ModelResponse`. `payload` is what `json.loads` and `_validate_payload` make of its text: `none` where
-- either of them fails.
pub record ModelResponse : Type 0 where
  pub tokens_in : ℕ
  pub tokens_out : ℕ
  pub stopped_by_length : Bool
  pub payload : Option (List ChunkItem)

-- What one call of `complete` does. `rate_limited` and `unavailable` are retried, `client_error` is not.
pub data Answer : Type 0 where
  response : ModelResponse → Answer
  rate_limited unavailable client_error : Answer

-- The script of the client: the answer to the n-th call of the run.
abbrev pub Client : Type 0
Client = ℕ → Answer

-- The state of a run: how many calls and how many seconds of sleep there have been, and the result.
pub record MineState : Type 0 where
  pub calls_made : ℕ
  pub slept : ℕ
  pub result : MineResult

abbrev pub provider_retries : ℕ
provider_retries = 3

-- What `_call_with_retries` does: it returns a response or raises.
pub data CallResult : Type 0 where
  got : ModelResponse → CallResult
  provider_error : CallResult

abbrev pub called : MineState → MineState
called s = record s { calls_made = s.calls_made + 1 }

-- `sleep_fn(min(2.0 * (attempt + 1), 8.0))`, unless this was the last attempt.
abbrev pub back_off : ℕ → MineState → MineState
back_off attempt s =
    if ltb (attempt + 1) provider_retries
    then record s { slept = s.slept + min (2 * (attempt + 1)) 8 }
    else s

-- One round: `retry` is what the later rounds do.
abbrev pub on_answer : Answer → MineState → CallResult × MineState → CallResult × MineState
on_answer (response r) s retry = (got r, s)
on_answer client_error s retry = (provider_error, s)
on_answer rate_limited s retry = retry
on_answer unavailable s retry = retry

module _ (client : Client) where
  -- The rounds of the loop from `attempt` on, of which `left` remain.
  unfoldable pub attempts : ℕ → ℕ → MineState → CallResult × MineState
  attempts zero attempt s = (provider_error, s)
  attempts (suc left) attempt s =
      let retry = attempts left (attempt + 1) (back_off attempt (called s)) in
      on_answer (client s.calls_made) (called s) retry

  unfoldable pub call_with_retries : MineState → CallResult × MineState
  unfolding attempts
  call_with_retries s = attempts provider_retries 0 s

  attempts_bounds :
      (left attempt : ℕ) (s : MineState)
      → left + attempt ≤ 3
      → ((attempts left attempt s).1.result ≡ s.result)
        × ((attempts left attempt s).1.calls_made ≤ s.calls_made + left)
        × ((attempts left attempt s).1.slept ≤ s.slept + 4 * left)
  unfolding attempts
  attempts_bounds zero attempt s h = (refl, omega arith, omega arith)
  attempts_bounds (suc left) attempt s h =
      for_answer (client s.calls_made)
        (attempts_bounds left (attempt + 1) (back_off attempt (called s)) (omega arith))
    where
      for_answer :
          (a : Answer)
          → (let r = attempts left (attempt + 1) (back_off attempt (called s)) in
              let s' = back_off attempt (called s) in
              (r.1.result ≡ s'.result)
              × (r.1.calls_made ≤ s'.calls_made + left)
              × (r.1.slept ≤ s'.slept + 4 * left))
          → (let o =
                on_answer a
                  (called s)
                  (attempts left (attempt + 1) (back_off attempt (called s))) in
              (o.1.result ≡ s.result)
              × (o.1.calls_made ≤ s.calls_made + suc left)
              × (o.1.slept ≤ s.slept + 4 * suc left))
      for_answer (response r) ih = (refl, omega arith, omega arith)
      for_answer client_error ih = (refl, omega arith, omega arith)
      for_answer rate_limited ih = (ground (arith, ih), ground (arith, ih), ground (arith, ih))
      for_answer unavailable ih = (ground (arith, ih), ground (arith, ih), ground (arith, ih))

  -- A call is made at most three times, sleeps at most twelve seconds, and leaves the result alone.
  pub call_with_retries_bounds :
      (s : MineState)
      → ((call_with_retries s).1.result ≡ s.result)
        × ((call_with_retries s).1.calls_made ≤ s.calls_made + 3)
        × ((call_with_retries s).1.slept ≤ s.slept + 12)
  unfolding call_with_retries
  call_with_retries_bounds s = attempts_bounds 3 0 s (omega arith)
