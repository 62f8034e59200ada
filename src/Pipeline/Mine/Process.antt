-- ===== src/Pipeline/Mine/Process.antt =====
-- app/pipeline/mine.py: `_process_chunk` and `mine_chunks`.
use rfp_shred.Prelude.{
  codes, Bool, List, Option, Text, [], if◌then◌else◌, leb, length, ltb, max, min, none, some, suc,
  zero, ℕ, ◌*◌, ◌++◌, ◌+◌, ◌-◌, ◌||◌, ◌∷◌,
}
use rfp_shred.Pipeline.Items.{Chunk, MinedItem, CallRecord, empty_result}
use rfp_shred.Pipeline.TextUtils.Normalize.{Unicode}
use rfp_shred.Pipeline.TextUtils.Containment.{starts_with}
use rfp_shred.Pipeline.Chunking.{halve_chunk}
use rfp_shred.Pipeline.Mine.Calls.{
  PyInt, nonneg, negative, ChunkItem, ModelResponse, Client, MineState, CallResult, got,
  provider_error, call_with_retries,
}

abbrev pub max_requirements_per_chunk : ℕ
max_requirements_per_chunk = 25

abbrev pub max_rechunk_depth : ℕ
max_rechunk_depth = 2

abbrev pub truncation_token_margin : ℕ
truncation_token_margin = 100

-- `text.count(word)`: occurrences that do not overlap. `skip` characters belong to the last one.
unfoldable pub count_from : Text → ℕ → Text → ℕ
unfolding starts_with
count_from word skip [] = 0
count_from word (suc skip) (c ∷ t) = count_from word skip t
count_from word zero (c ∷ t) =
    let found = suc (count_from word (length word - 1) t) in
    let rest = count_from word zero t in if starts_with word (c ∷ t) then found else rest

-- `_estimate_requirements`: "shall", "must" and "required" in the lower case of the text.
unfoldable pub estimate_requirements : Unicode → Text → ℕ
unfolding count_from
estimate_requirements u t =
    let lowered = u.lower t in
    max 1 (
      count_from (codes "shall") 0 lowered
      + count_from (codes "must") 0 lowered
      + count_from (codes "required") 0 lowered)

-- A handler that may raise a provider's error, which ends the whole run.
pub data Outcome : Type 0 where
  finished : MineState → Outcome
  failed : MineState → Outcome

infixl 5 ◌>>=◌
abbrev pub ◌>>=◌ : Outcome → (MineState → Outcome) → Outcome
finished s >>= f = f s
failed s >>= f = failed s

abbrev pub count_failed : MineState → MineState
count_failed s = record s {
  result = record (s.result) { failed_chunks = s.result.failed_chunks + 1 };
}

-- `item.page if item.page >= 1 else chunk.page_start`
abbrev pub page_or_start : Chunk → PyInt → ℕ
page_or_start chunk (nonneg p) = if leb 1 p then p else chunk.page_start
page_or_start chunk (negative p) = chunk.page_start

-- The cited page, kept inside the page span of the chunk.
unfoldable pub clamp_page : Chunk → PyInt → ℕ
clamp_page chunk p =
    let page = page_or_start chunk p in
    let top = max chunk.page_end chunk.page_start in
    if ltb page chunk.page_start || ltb top page then min (max page chunk.page_start) top else page

abbrev pub mined : Chunk → ℕ → ChunkItem → MinedItem
mined chunk order item = record {
  clause_id = item.clause_id;
  section = item.section;
  page = clamp_page chunk item.page;
  text = item.text;
  excerpt = item.excerpt;
  is_requirement = item.is_requirement;
  chunk_index = chunk.index;
  doc_order = order;
}

-- The loop over the items of a response. `doc_order` is `len(result.items)`.
unfoldable pub add_items : Chunk → List ChunkItem → List MinedItem → List MinedItem
unfolding clamp_page
add_items chunk [] items = items
add_items chunk (item ∷ rest) items =
    add_items chunk rest (items ++ mined chunk (length items) item ∷ [])

abbrev pub call_record : Chunk → ModelResponse → CallRecord
call_record chunk r = record {
  chunk_index = chunk.index;
  tokens_in = r.tokens_in;
  tokens_out = r.tokens_out;
}

abbrev pub record_call : Chunk → ModelResponse → List ChunkItem → MineState → MineState
record_call chunk r parsed s = record s {
  result = record (s.result) {
    calls = s.result.calls ++ call_record chunk r ∷ [];
    items = add_items chunk parsed s.result.items;
  };
}

module _ (client : Client) (u : Unicode) (max_tokens : ℕ) where
  -- `response.finish_reason == "length" or response.tokens_out >= max_tokens - 100`
  abbrev pub truncated : ModelResponse → Bool
  truncated r = r.stopped_by_length || leb max_tokens (r.tokens_out + truncation_token_margin)

  -- What to do with a chunk: halve it, or go on with the state. `left` is how often it may still be
  -- halved, and `halves` what processing its halves does.
  abbrev pub or_halve : ℕ → (MineState → Outcome) → (MineState → Outcome) → MineState → Outcome
  or_halve zero halves otherwise s = otherwise s
  or_halve (suc left) halves otherwise s = halves s

  abbrev pub accept :
      ℕ → (MineState → Outcome) → Chunk → ModelResponse → List ChunkItem → MineState → Outcome
  accept left halves chunk r parsed s =
      if ltb max_requirements_per_chunk (length parsed)
      then or_halve left halves (λ s'. finished (record_call chunk r parsed s')) s
      else finished (record_call chunk r parsed s)

  abbrev pub on_payload :
      Option (List ChunkItem)
      → Outcome
      → ℕ
      → (MineState → Outcome)
      → Chunk
      → ModelResponse
      → MineState
      → Outcome
  on_payload none again left halves chunk r s = again
  on_payload (some parsed) again left halves chunk r s = accept left halves chunk r parsed s

  -- `again` is what the next attempt does.
  abbrev pub on_result :
      CallResult → Outcome → ℕ → (MineState → Outcome) → Chunk → MineState → Outcome
  on_result provider_error again left halves chunk s = failed s
  on_result (got r) again left halves chunk s =
      if truncated r
      then or_halve left halves (λ t. finished (count_failed t)) s
      else on_payload r.payload again left halves chunk r s

  -- The loop over the two attempts, of which `tries` remain.
  unfoldable pub try_chunk : ℕ → ℕ → (MineState → Outcome) → Chunk → MineState → Outcome
  unfolding call_with_retries
  try_chunk zero left halves chunk s = finished (count_failed s)
  try_chunk (suc tries) left halves chunk s =
      let (answer, s') = call_with_retries client s in
      let again = try_chunk tries left halves chunk s' in
      on_result answer again left halves chunk s'

  -- `left` is `MAX_RECHUNK_DEPTH - depth`. At zero a chunk is never halved, and the handler for its
  -- halves is not used.
  unfoldable pub process_chunk : ℕ → Chunk → MineState → Outcome
  unfolding try_chunk
  process_chunk zero chunk s = try_chunk 2 zero failed chunk s
  process_chunk (suc left) chunk s =
      let halves : MineState → Outcome = λ t.
        process_chunk left (halve_chunk chunk).0 t >>= process_chunk left (halve_chunk chunk).1 in
      if ltb max_tokens (estimate_requirements u chunk.text * 500)
      then halves s
      else try_chunk 2 (suc left) halves chunk s

  unfoldable pub mine_from : List Chunk → MineState → Outcome
  unfolding process_chunk
  mine_from [] s = finished s
  mine_from (chunk ∷ chunks) s = process_chunk max_rechunk_depth chunk s >>= mine_from chunks

  abbrev pub start : MineState
  start = record { calls_made = 0; slept = 0; result = empty_result }

  unfoldable pub mine_chunks : List Chunk → Outcome
  unfolding mine_from
  mine_chunks chunks = mine_from chunks start
