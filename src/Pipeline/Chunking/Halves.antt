-- ===== src/Pipeline/Chunking/Halves.antt =====
-- app/pipeline/chunking.py: the two halves of a chunk.
use rfp_shred.Prelude.{
  ap, arith, drop, drop-drop, length, length-drop, length-take, refl, take-append-drop, ◌*◌, ◌++◌,
  ◌+◌, ◌-◌, ◌/◌, ◌<◌, ◌≡◌, ◌≤◌,
}
use rfp_shred.Pipeline.Items.{Chunk}
use rfp_shred.Pipeline.Chunking.{halve_chunk, mid_of, half_overlap}

-- No text is lost: the first half, and the second without the stretch that the two share, make up
-- the text of the chunk.
halve_chunk-covers :
    (c : Chunk)
    → (halve_chunk c).0.text ++ drop (2 * half_overlap c) (halve_chunk c).1.text ≡ c.text
unfolding halve_chunk
halve_chunk-covers c =
    rw
      (drop-drop (mid_of c - half_overlap c) (2 * half_overlap c) (mid_of c + half_overlap c) c.text
        (omega arith))
      (take-append-drop (mid_of c + half_overlap c) c.text)

-- The page ranges of the halves split that of the chunk: a range that is in order is cut at a page
-- inside it, at which the first half ends and the second begins.
pub halve_chunk-pages :
    (c : Chunk)
    → c.page_start ≤ c.page_end
    → ((halve_chunk c).0.page_start ≡ c.page_start)
      × ((halve_chunk c).0.page_end ≡ (halve_chunk c).1.page_start)
      × ((halve_chunk c).1.page_end ≡ c.page_end)
      × (c.page_start ≤ (halve_chunk c).0.page_end)
      × ((halve_chunk c).0.page_end ≤ c.page_end)
unfolding halve_chunk
halve_chunk-pages c h = (refl, refl, refl, omega arith, omega arith)

-- A chunk of at least 502 characters is cut into two shorter texts, each at most half of it and 250
-- characters and one more.
halve_chunk-shrinks :
    (c : Chunk)
    → 502 ≤ length c.text
    → (length (halve_chunk c).0.text < length c.text)
      × (length (halve_chunk c).1.text < length c.text)
      × (length (halve_chunk c).0.text ≤ length c.text / 2 + 250)
      × (length (halve_chunk c).1.text ≤ length c.text / 2 + 251)
unfolding halve_chunk
halve_chunk-shrinks c h =
    let first_half = length-take (mid_of c + half_overlap c) c.text in
    let second_half = length-drop (mid_of c - half_overlap c) c.text in
    (
      omega (arith, first_half),
      omega (arith, second_half),
      omega (arith, first_half),
      omega (arith, second_half),
    )

-- A chunk of at most 501 characters is not cut: its second half is the whole text, and the first
-- half is the whole text but for its last character at most.
halve_chunk-short :
    (c : Chunk)
    → length c.text ≤ 501
    → ((halve_chunk c).1.text ≡ c.text) × (length c.text ≤ length (halve_chunk c).0.text + 1)
unfolding halve_chunk
halve_chunk-short c h =
    let none_skipped : mid_of c - half_overlap c ≡ 0 = omega arith in
    (
      ap (λ n. drop n c.text) none_skipped,
      omega (arith, length-take (mid_of c + half_overlap c) c.text),
    )
