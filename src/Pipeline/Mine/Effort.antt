-- ===== src/Pipeline/Mine/Effort.antt =====
-- app/pipeline/mine.py: how much a run asks of the provider, and what becomes of each chunk.
use rfp_shred.Prelude.{
  Bool-cases, List, Option, [], arith, inl, inr, length, length-append, ltb, none, refl, some, suc,
  zero, ℕ, ◌*◌, ◌+◌, ◌∷◌, ◌≡◌, ◌≤◌,
}
use rfp_shred.Pipeline.Items.{Chunk}
use rfp_shred.Pipeline.TextUtils.Normalize.{Unicode}
use rfp_shred.Pipeline.Chunking.{halve_chunk}
use rfp_shred.Pipeline.Mine.Calls.{
  ChunkItem, ModelResponse, Client, MineState, CallResult, got, provider_error, call_with_retries,
  call_with_retries_bounds,
}
use rfp_shred.Pipeline.Mine.Process.{
  Outcome, finished, failed, ◌>>=◌, count_failed, record_call, call_record, truncated, or_halve,
  accept, on_payload, on_result, try_chunk, process_chunk, mine_from, mine_chunks, start,
  estimate_requirements,
}

abbrev pub state_of : Outcome → MineState
state_of (finished s) = s
state_of (failed s) = s

-- How many chunks have been recorded or counted as failed.
abbrev pub settled : MineState → ℕ
settled s = length s.result.calls + s.result.failed_chunks

-- From `s`, at most `n` more calls, and, if no provider's error ends the run, `m` more settled chunks.
record Costs (n m : ℕ) (s : MineState) (o : Outcome) : Type 0 where
  calls : (state_of o).calls_made ≤ s.calls_made + n
  settles : (s' : MineState) → o ≡ finished s' → settled s + m ≤ settled s'

Costs->>= :
    (n m k l : ℕ) (s : MineState) (o : Outcome) (f : MineState → Outcome)
    → Costs n m s o
    → ((t : MineState) → Costs k l t (f t))
    → Costs (n + k) (m + l) s (o >>= f)
Costs->>= n m k l s (finished t) f h rest = record {
  calls = omega (arith, h.calls, (rest t).calls);
  settles = λ s' e. omega (arith, h.settles t refl, (rest t).settles s' e);
}
Costs->>= n m k l s (failed t) f h rest = record {
  calls = omega (arith, h.calls);
  settles = λ s' e. cc;
}

Costs-after :
    (n m k : ℕ) (s t : MineState) (o : Outcome)
    → t.result ≡ s.result
    → t.calls_made ≤ s.calls_made + k
    → Costs n m t o
    → Costs (k + n) m s o
Costs-after n m k s t o same more h = record {
  calls = omega (arith, h.calls);
  settles = λ s' e. let step = h.settles s' e in ground (arith, step, same);
}

module _ (client : Client) (u : Unicode) (max_tokens : ℕ) where
  count_failed-Costs : (n : ℕ) (s : MineState) → Costs n 1 s (finished (count_failed s))
  count_failed-Costs n s = record { calls = omega arith; settles = λ s' e. ground arith }

  record_call-Costs :
      (n : ℕ) (chunk : Chunk) (r : ModelResponse) (parsed : List ChunkItem) (s : MineState)
      → Costs n 1 s (finished (record_call chunk r parsed s))
  record_call-Costs n chunk r parsed s = record {
    calls = omega arith;
    settles = λ s' e. ground (arith, length-append s.result.calls (call_record chunk r ∷ []));
  }

  module _ (n left : ℕ) (halves : MineState → Outcome) (chunk : Chunk)
      (costs : (t : MineState) → Costs n 1 t (halves t)) where
    or_halve-Costs :
        (left : ℕ) (otherwise : MineState → Outcome) (s : MineState)
        → Costs n 1 s (otherwise s)
        → Costs n 1 s (or_halve client u max_tokens left halves otherwise s)
    or_halve-Costs zero otherwise s h = h
    or_halve-Costs (suc left) otherwise s h = costs s

    accept-Costs :
        (r : ModelResponse) (parsed : List ChunkItem) (s : MineState)
        → Costs n 1 s (accept client u max_tokens left halves chunk r parsed s)
    accept-Costs r parsed s = elim (Bool-cases (ltb 25 (length parsed))) [
      | inl e ↦ rw e (or_halve-Costs left _ s (record_call-Costs n chunk r parsed s))
      | inr e ↦ rw e (record_call-Costs n chunk r parsed s)
    ]

    on_payload-Costs :
        (o : Option (List ChunkItem)) (again : Outcome) (r : ModelResponse) (s : MineState)
        → Costs n 1 s again
        → Costs n 1 s (on_payload client u max_tokens o again left halves chunk r s)
    on_payload-Costs none again r s h = h
    on_payload-Costs (some parsed) again r s h = accept-Costs r parsed s

    on_result-Costs :
        (a : CallResult) (again : Outcome) (s : MineState)
        → Costs n 1 s again
        → Costs n 1 s (on_result client u max_tokens a again left halves chunk s)
    on_result-Costs provider_error again s h = record { calls = omega arith; settles = λ s' e. cc }
    on_result-Costs (got r) again s h = elim (Bool-cases (truncated client u max_tokens r)) [
      | inl e ↦ rw e (or_halve-Costs left _ s (count_failed-Costs n s))
      | inr e ↦ rw e (on_payload-Costs r.payload again r s h)
    ]

  Costs-weaken :
      (n k m : ℕ) (s : MineState) (o : Outcome) → n ≤ k → 1 ≤ m → Costs n m s o → Costs k 1 s o
  Costs-weaken n k m s o h l c = record {
    calls = omega (arith, c.calls);
    settles = λ s' e. omega (arith, c.settles s' e);
  }

  try_chunk-Costs :
      (tries n left : ℕ) (halves : MineState → Outcome) (chunk : Chunk) (s : MineState)
      → ((t : MineState) → Costs n 1 t (halves t))
      → Costs (3 * tries + n) 1 s (try_chunk client u max_tokens tries left halves chunk s)
  unfolding try_chunk
  try_chunk-Costs zero n left halves chunk s costs = count_failed-Costs (3 * 0 + n) s
  try_chunk-Costs (suc tries) n left halves chunk s costs =
      let (answer, s') = call_with_retries client s in
      let (same, more, _) = call_with_retries_bounds client s in
      let again = try_chunk-Costs tries n left halves chunk s' costs in
      let later =
        on_result-Costs (3 * tries + n) left halves chunk
          (λ t. Costs-weaken n (3 * tries + n) 1 t (halves t) (omega arith) (omega arith) (costs t))
          answer _ s' again in
      Costs-weaken (3 + (3 * tries + n)) (3 * suc tries + n) 1 s _ (omega arith) (omega arith)
        (Costs-after (3 * tries + n) 1 3 s s' _ same more later)

  -- The calls that one chunk can take if it may be halved `left` times.
  abbrev budget : ℕ → ℕ
  budget zero = 6
  budget (suc left) = 6 + 2 * budget left

  process_chunk-Costs :
      (left : ℕ) (chunk : Chunk) (s : MineState)
      → Costs (budget left) 1 s (process_chunk client u max_tokens left chunk s)
  unfolding process_chunk
  process_chunk-Costs zero chunk s =
      try_chunk-Costs 2 0 zero failed chunk s
        (λ t. record { calls = omega arith; settles = λ s' e. cc })
  process_chunk-Costs (suc left) chunk s =
      let halves : MineState → Outcome = λ t.
        process_chunk client u max_tokens left (halve_chunk chunk).0 t
        >>= process_chunk client u max_tokens left (halve_chunk chunk).1 in
      let costs : (t : MineState) → Costs (2 * budget left) 1 t (halves t) = λ t.
        Costs-weaken (budget left + budget left) (2 * budget left) 2 t _ (omega arith) (omega arith)
          (Costs->>= (budget left) 1 (budget left) 1 t _ _
            (process_chunk-Costs left (halve_chunk chunk).0 t)
            (process_chunk-Costs left (halve_chunk chunk).1)) in
      elim (Bool-cases (ltb max_tokens (estimate_requirements u chunk.text * 500))) [
        | inl e ↦ rw e (
            Costs-weaken (2 * budget left) (budget (suc left)) 1 s (halves s) (omega arith)
              (omega arith) (costs s))
        | inr e ↦ rw e (try_chunk-Costs 2 (2 * budget left) (suc left) halves chunk s costs)
      ]

  mine_from-Costs :
      (chunks : List Chunk) (s : MineState)
      → Costs (42 * length chunks) (length chunks) s (mine_from client u max_tokens chunks s)
  unfolding mine_from
  mine_from-Costs [] s = record { calls = omega arith; settles = λ s' e. ground arith }
  mine_from-Costs (chunk ∷ chunks) s =
      let both =
        Costs->>= 42 1 (42 * length chunks) (length chunks) s _ _ (process_chunk-Costs 2 chunk s)
          (mine_from-Costs chunks) in
      record {
        calls = omega (arith, both.calls);
        settles = λ s' e. omega (arith, both.settles s' e);
      }

  -- A run is bounded: whatever the provider answers, mining makes at most 42 calls for each chunk.
  pub mine_chunks-effort :
      (chunks : List Chunk)
      → (state_of (mine_chunks client u max_tokens chunks)).calls_made ≤ 42 * length chunks
  unfolding mine_chunks
  mine_chunks-effort chunks =
      let all = mine_from-Costs chunks (start client u max_tokens) in omega (arith, all.calls)

  -- A run loses no chunk without a trace: unless a provider's error ends it, the recorded calls and
  -- the failures in the count are together at least as many as the chunks.
  mine_chunks-settles :
      (chunks : List Chunk) (s : MineState)
      → mine_chunks client u max_tokens chunks ≡ finished s
      → length chunks ≤ length s.result.calls + s.result.failed_chunks
  unfolding mine_chunks
  mine_chunks-settles chunks s e =
      let all = mine_from-Costs chunks (start client u max_tokens) in omega (arith, all.settles s e)
