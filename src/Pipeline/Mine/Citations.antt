-- ===== src/Pipeline/Mine/Citations.antt =====
-- app/pipeline/mine.py: the pages that mined items cite, and their order.
use rfp_shred.Prelude.{
  All, Bool-cases, List, Option, [], arith, inl, inr, length, ltb, none, some, subst, suc, sym,
  zero, ℕ, ◌*◌, ◌++◌, ◌+◌, ◌∷◌, ◌≡◌, ◌≤◌,
}
use rfp_shred.Pipeline.Items.{Chunk, MinedItem, MineResult}
use rfp_shred.Pipeline.TextUtils.Normalize.{Unicode}
use rfp_shred.Pipeline.Chunking.{halve_chunk}
use rfp_shred.Pipeline.Chunking.Halves.{halve_chunk-pages}
use rfp_shred.Pipeline.Mine.Calls.{
  PyInt, nonneg, negative, ChunkItem, ModelResponse, Client, MineState, CallResult, got,
  provider_error, call_with_retries, call_with_retries_bounds,
}
use rfp_shred.Pipeline.Mine.Process.{
  Outcome, finished, failed, ◌>>=◌, record_call, truncated, or_halve, on_payload, on_result,
  try_chunk, process_chunk, mine_from, mine_chunks, start, estimate_requirements, clamp_page, mined,
  add_items,
}
use rfp_shred.Pipeline.Mine.Effort.{state_of}

-- The pages of a chunk lie between `lo` and `hi`.
pub record Between (lo hi : ℕ) (c : Chunk) : Type 0 where
  pub above : lo ≤ c.page_start
  pub forward : c.page_start ≤ c.page_end
  pub below : c.page_end ≤ hi

clamp_page_bounds :
    (c : Chunk) (p : PyInt)
    → c.page_start ≤ c.page_end
    → (c.page_start ≤ clamp_page c p) × (clamp_page c p ≤ c.page_end)
unfolding clamp_page
clamp_page_bounds c (nonneg p) h = ground arith
clamp_page_bounds c (negative p) h = ground arith

-- Items are numbered from `n` on, and each cites a page between `lo` and `hi`.
abbrev pub Placed : ℕ → ℕ → ℕ → List MinedItem → Type 0
Placed lo hi n [] = Unit
Placed lo hi n (i ∷ is) =
    (i.doc_order ≡ n) × (lo ≤ i.page) × (i.page ≤ hi) × Placed lo hi (n + 1) is

module _ (lo hi : ℕ) where
  Placed-append_last :
      (is : List MinedItem) (n : ℕ) (i : MinedItem)
      → Placed lo hi n is
      → i.doc_order ≡ n + length is
      → lo ≤ i.page
      → i.page ≤ hi
      → Placed lo hi n (is ++ i ∷ [])
  Placed-append_last [] n i h e a b = (omega arith, a, b, tt)
  Placed-append_last (j ∷ is) n i h e a b =
      (h.0, h.1, h.2, Placed-append_last is (n + 1) i h.3 (omega arith) a b)

  add_items-Placed :
      (c : Chunk) (parsed : List ChunkItem) (is : List MinedItem)
      → Between lo hi c
      → Placed lo hi 0 is
      → Placed lo hi 0 (add_items c parsed is)
  unfolding add_items
  add_items-Placed c [] is b h = h
  add_items-Placed c (item ∷ rest) is b h =
      let page = clamp_page_bounds c item.page b.forward in
      add_items-Placed c rest _ b (
        Placed-append_last is 0 (mined c (length is) item) h (omega arith)
          (omega (arith, page.0, b.above)) (omega (arith, page.1, b.below)))

  halves-Between :
      (c : Chunk)
      → Between lo hi c
      → Between lo hi (halve_chunk c).0 × Between lo hi (halve_chunk c).1
  halves-Between c b =
      let pages = halve_chunk-pages c b.forward in
      (
        record {
          above = omega (arith, pages.0, b.above);
          forward = omega (arith, pages.0, pages.3);
          below = omega (arith, pages.4, b.below);
        },
        record {
          above = omega (arith, pages.1, pages.3, b.above);
          forward = omega (arith, pages.1, pages.2, pages.4);
          below = omega (arith, pages.2, b.below);
        },
      )

  -- A handler keeps the items placed.
  abbrev Keeps : (MineState → Outcome) → Type 0
  Keeps f =
      (s : MineState) → Placed lo hi 0 s.result.items → Placed lo hi 0 (state_of (f s)).result.items

  Keeps->>= :
      (o : Outcome) (f : MineState → Outcome)
      → Placed lo hi 0 (state_of o).result.items
      → Keeps f
      → Placed lo hi 0 (state_of (o >>= f)).result.items
  Keeps->>= (finished s) f h k = k s h
  Keeps->>= (failed s) f h k = h

  module _ (client : Client) (u : Unicode) (max_tokens : ℕ) where
    module _ (c : Chunk) (b : Between lo hi c) (halves : MineState → Outcome)
        (kept : Keeps halves) where
      or_halve-Keeps :
          (left : ℕ) (otherwise : MineState → Outcome)
          → Keeps otherwise
          → Keeps (or_halve client u max_tokens left halves otherwise)
      or_halve-Keeps zero otherwise k = k
      or_halve-Keeps (suc left) otherwise k = kept

      record_call-Keeps :
          (r : ModelResponse) (parsed : List ChunkItem)
          → Keeps (λ s. finished (record_call c r parsed s))
      record_call-Keeps r parsed s h = add_items-Placed c parsed s.result.items b h

      on_payload-Keeps :
          (o : Option (List ChunkItem)) (again : Outcome) (left : ℕ) (r : ModelResponse)
          (s : MineState)
          → Placed lo hi 0 (state_of again).result.items
          → Placed lo hi 0 s.result.items
          → Placed lo hi 0
              (state_of (on_payload client u max_tokens o again left halves c r s)).result.items
      on_payload-Keeps none again left r s k h = k
      on_payload-Keeps (some parsed) again left r s k h =
          elim (Bool-cases (ltb 25 (length parsed))) [
            | inl e ↦ rw e (or_halve-Keeps left _ (record_call-Keeps r parsed) s h)
            | inr e ↦ rw e (record_call-Keeps r parsed s h)
          ]

      on_result-Keeps :
          (a : CallResult) (again : Outcome) (left : ℕ) (s : MineState)
          → Placed lo hi 0 (state_of again).result.items
          → Placed lo hi 0 s.result.items
          → Placed lo hi 0
              (state_of (on_result client u max_tokens a again left halves c s)).result.items
      on_result-Keeps provider_error again left s k h = h
      on_result-Keeps (got r) again left s k h =
          elim (Bool-cases (truncated client u max_tokens r)) [
            | inl e ↦ rw e (or_halve-Keeps left _ (λ t g. g) s h)
            | inr e ↦ rw e (on_payload-Keeps r.payload again left r s k h)
          ]

      try_chunk-Keeps : (tries left : ℕ) → Keeps (try_chunk client u max_tokens tries left halves c)
      unfolding try_chunk
      try_chunk-Keeps zero left s h = h
      try_chunk-Keeps (suc tries) left s h =
          let (answer, s') = call_with_retries client s in
          let (same, _, _) = call_with_retries_bounds client s in
          let h' : Placed lo hi 0 s'.result.items =
            subst (λ (r : MineResult). Placed lo hi 0 r.items) (sym same) h in
          on_result-Keeps answer _ left s' (try_chunk-Keeps tries left s' h') h'

    process_chunk-Keeps :
        (left : ℕ) (c : Chunk) → Between lo hi c → Keeps (process_chunk client u max_tokens left c)
    unfolding process_chunk
    process_chunk-Keeps zero c b s h = try_chunk-Keeps c b failed (λ t g. g) 2 0 s h
    process_chunk-Keeps (suc left) c b s h =
        let (first_half, second_half) = halves-Between c b in
        let halves : MineState → Outcome = λ t.
          process_chunk client u max_tokens left (halve_chunk c).0 t
          >>= process_chunk client u max_tokens left (halve_chunk c).1 in
        let kept : Keeps halves = λ t g.
          Keeps->>= (process_chunk client u max_tokens left (halve_chunk c).0 t)
            (process_chunk client u max_tokens left (halve_chunk c).1)
            (process_chunk-Keeps left (halve_chunk c).0 first_half t g)
            (process_chunk-Keeps left (halve_chunk c).1 second_half) in
        elim (Bool-cases (ltb max_tokens (estimate_requirements u c.text * 500))) [
          | inl e ↦ rw e (kept s h)
          | inr e ↦ rw e (try_chunk-Keeps c b halves kept 2 (suc left) s h)
        ]

    mine_from-Keeps :
        (chunks : List Chunk)
        → All (Between lo hi) chunks
        → Keeps (mine_from client u max_tokens chunks)
    unfolding mine_from
    mine_from-Keeps [] bs s h = h
    mine_from-Keeps (c ∷ chunks) bs s h =
        Keeps->>= (process_chunk client u max_tokens 2 c s) (mine_from client u max_tokens chunks)
          (process_chunk-Keeps 2 c bs.0 s h) (mine_from-Keeps chunks bs.1)

    -- Whatever the model claims, a mined item cites a page of the chunks that were sent: if their page
    -- ranges are in order and lie between `lo` and `hi`, so does the page of every item, also where a
    -- provider's error ends the run; and the items are numbered 0, 1, 2 and so on, in their
    -- order.
    pub mine_chunks-Placed :
        (chunks : List Chunk)
        → All (Between lo hi) chunks
        → Placed lo hi 0 (state_of (mine_chunks client u max_tokens chunks)).result.items
    unfolding mine_chunks
    mine_chunks-Placed chunks bs = mine_from-Keeps chunks bs (start client u max_tokens) tt
