-- ===== src/Pipeline/Chunking/Pieces.antt =====
-- app/pipeline/chunking.py: the pieces of a segment, and the cap on their number.
use rfp_shred.Prelude.{
  Bool-cases, List, Text, [], ap, append-nil, arith, drop, drop-append_le, drop-drop, false, inl,
  inr, leb, leb→le, length, length-drop, length-take, ltb, ltb→lt, lt→ltb, none, refl, some, subst,
  suc, sym, take, take-all, take-append-drop, zero, ℕ, ◌++◌, ◌+◌, ◌-◌, ◌<◌, ◌∙◌, ◌∷◌, ◌≡◌, ◌≤◌,
}
use rfp_shred.Pipeline.Items.{Chunk}
use rfp_shred.Pipeline.Chunking.{
  Span, Segment, step_of, slice, piece_at, pieces, chunk_segments, build_chunks,
}

-- The texts of the chunks, each without its first `overlap` characters.
abbrev tails : ℕ → List Chunk → Text
tails overlap [] = []
tails overlap (c ∷ cs) = drop overlap c.text ++ tails overlap cs

-- The text that overlapping chunks stand for: the first, and what each later one adds.
abbrev pub stitch : ℕ → List Chunk → Text
stitch overlap [] = []
stitch overlap (c ∷ cs) = c.text ++ tails overlap cs

module _ (spans : List Span) (full : Text) (target overlap : ℕ) (seg : Segment)
    (small : overlap < target) (ordered : seg.start ≤ seg.stop)
    (inside : seg.stop ≤ length full) where
  abbrev body : Text
  body = slice seg.start seg.stop full

  length-body : length body ≡ seg.stop - seg.start
  length-body =
      omega (
        arith,
        length-take (seg.stop - seg.start) (drop seg.start full),
        length-drop seg.start full,
      )

  -- One piece in front of those that start a step further on.
  join_piece :
      (pos next : ℕ) (c : Chunk) (cs : List Chunk)
      → pos + target ≡ next + overlap
      → pos + target < length body
      → c.text ≡ take target (drop next body)
      → c.text ++ tails overlap cs ≡ drop next body
      → take target (drop pos body) ++ (drop overlap c.text ++ tails overlap cs) ≡ drop pos body
  join_piece pos next c cs same more piece rest =
      let size = length-take target (drop next body) in
      let left = length-drop next body in
      let long : overlap ≤ length c.text = rw piece (omega (arith, size, left)) in
      ap (λ r. take target (drop pos body) ++ r)
        (sym (drop-append_le overlap c.text (tails overlap cs) long)
          ∙ ap (drop overlap) rest
          ∙ drop-drop next overlap (pos + target) body (sym same)
          ∙ sym (drop-drop pos target (pos + target) body refl))
      ∙ take-append-drop target (drop pos body)

  pieces-stitch :
      (fuel pos index : ℕ)
      → pos < length body
      → length body - pos < fuel
      → (c : Chunk) × (cs : List Chunk) × (pieces spans full target overlap fuel seg pos index
          ≡ c ∷ cs)
        × (c.text ≡ take target (drop pos body))
        × (c.text ++ tails overlap cs ≡ drop pos body)
  unfolding pieces
  pieces-stitch zero pos index h enough = absurd (omega arith)
  pieces-stitch (suc fuel) pos index h enough =
      let here = take target (drop pos body) in
      let size = length-take target (drop pos body) in
      let left = length-drop pos body in
      rw (lt→ltb _ _ h) (elim (Bool-cases (leb seg.stop (seg.start + pos + length here))) [
        | inl e ↦
            let reached = leb→le _ _ e in
            rw e (
              piece_at spans full target overlap seg pos index,
              [],
              refl,
              refl,
              append-nil here
                  ∙ take-all target (drop pos body)
                      (omega (arith, reached, size, left, length-body)),
            )
        | inr e ↦
            let short : seg.start + pos + length here < seg.stop = ground arith in
            let step : step_of target overlap ≡ target - overlap = omega arith in
            let next = pos + step_of target overlap in
            let (c, cs, cut, piece, rest) =
              pieces-stitch fuel (pos + step_of target overlap) (index + 1)
                (omega (arith, short, size, left, length-body, step))
                (omega (arith, short, size, left, length-body, step)) in
            rw e (
              piece_at spans full target overlap seg pos index,
              c ∷ cs,
              ap (λ r. piece_at spans full target overlap seg pos index ∷ r) cut,
              refl,
              join_piece pos next c cs (omega (arith, step))
                  (omega (arith, short, size, left, length-body)) piece rest,
            )
      ])

  pieces-empty :
      (fuel index : ℕ)
      → ltb 0 (length body) ≡ false
      → pieces spans full target overlap fuel seg 0 index ≡ []
  unfolding pieces
  pieces-empty zero index h = refl
  pieces-empty (suc fuel) index h = rw h refl

  -- The pieces of a segment lose nothing: the first piece, and each later one without the characters
  -- that it shares with the one before, make up the segment's text, from its first character
  -- to its last. The overlap is below the target, and the segment lies in the text.
  pub pieces-cover :
      (index : ℕ)
      → stitch overlap (pieces spans full target overlap (length full + 1) seg 0 index) ≡ body
  pieces-cover index = elim (Bool-cases (ltb 0 (length body))) [
    | inl e ↦
        let (c, cs, cut, _, whole) =
          pieces-stitch (length full + 1) 0 index (ltb→lt _ _ e) (omega (arith, length-body)) in
        rw cut whole
    | inr e ↦
        ap (stitch overlap) (pieces-empty (length full + 1) index e)
        ∙ take-all 0 body (ground arith)
  ]

-- Every piece has at most the target number of characters, and the pieces are numbered in order.
abbrev pub Numbered : ℕ → ℕ → List Chunk → Type 0
Numbered target index [] = Unit
Numbered target index (c ∷ cs) =
    (c.index ≡ index) × (length c.text ≤ target) × Numbered target (index + 1) cs

module _ (spans : List Span) (full : Text) (target overlap : ℕ) where
  pieces-Numbered :
      (fuel : ℕ) (seg : Segment) (pos index : ℕ)
      → Numbered target index (pieces spans full target overlap fuel seg pos index)
  unfolding pieces
  pieces-Numbered zero seg pos index = tt
  pieces-Numbered (suc fuel) seg pos index =
      let piece = drop pos (slice seg.start seg.stop full) in
      let fits : length (take target piece) ≤ target = omega (arith, length-take target piece) in
      let rest = pieces-Numbered fuel seg (pos + step_of target overlap) (index + 1) in
      elim (Bool-cases (ltb pos (length (slice seg.start seg.stop full)))) [
        | inl e ↦
            rw e (elim (Bool-cases (leb seg.stop (seg.start + pos + length (take target piece)))) [
              | inl k ↦ rw k (refl, fits, tt)
              | inr k ↦ rw k (refl, fits, rest)
            ])
        | inr e ↦ rw e tt
      ]

  Numbered-append :
      (cs ds : List Chunk) (index : ℕ)
      → Numbered target index cs
      → Numbered target (index + length cs) ds
      → Numbered target index (cs ++ ds)
  Numbered-append [] ds index h k =
      let same : index + 0 ≡ index = omega arith in subst (λ i. Numbered target i ds) same k
  Numbered-append (c ∷ cs) ds index h k =
      let same : index + suc (length cs) ≡ index + 1 + length cs = omega arith in
      (h.0, h.1, Numbered-append cs ds (index + 1) h.2 (subst (λ i. Numbered target i ds) same k))

  chunk_segments-Numbered :
      (segs : List Segment) (index : ℕ)
      → Numbered target index (chunk_segments spans full target overlap segs index)
  unfolding chunk_segments
  chunk_segments-Numbered [] index = tt
  chunk_segments-Numbered (seg ∷ segs) index =
      let new = pieces-Numbered (length full + 1) seg 0 index in
      Numbered-append (pieces spans full target overlap (length full + 1) seg 0 index) _ index new
        (chunk_segments-Numbered segs _)

  -- What `build_chunks` returns is within its bounds: at most `cap` chunks, none longer than the
  -- target, numbered 0, 1, 2 and so on.
  build_chunks-bounds :
      (cap : ℕ) (segs : List Segment) (cs : List Chunk)
      → build_chunks spans full target overlap cap segs ≡ some cs
      → (length cs ≤ cap) × Numbered target 0 cs
  unfolding build_chunks
  build_chunks-bounds cap segs cs h =
      let all = chunk_segments spans full target overlap segs 0 in
      elim (Bool-cases (ltb cap (length all))) [
        | inl e ↦ let capped : none ≡ some cs = rw e at h in cc
        | inr e ↦
            let given : some all ≡ some cs = rw e at h in
            let same : all ≡ cs = cc in
            (
              rw (← same) (ground arith),
              subst (Numbered target 0) same (chunk_segments-Numbered segs 0),
            )
      ]
