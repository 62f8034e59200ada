-- ===== src/Pipeline/Chunking.antt =====
-- app/pipeline/chunking.py: the cutting of segments into overlapping pieces, and the halving of a
-- chunk. The segments themselves come from regular expressions over headings and are a parameter:
-- a list of headings with their parent, bounds and summary of what precedes them.
pub mod Halves
pub mod Pieces
use rfp_shred.Prelude.{
  Bool, List, Option, Text, [], drop, first, if◌then◌else◌, leb, length, ltb, max, min, none, some,
  suc, take, zero, ℕ, ◌&&◌, ◌++◌, ◌+◌, ◌-◌, ◌/◌, ◌∷◌,
}
use rfp_shred.Pipeline.Items.{Chunk}

abbrev pub target_chars : ℕ
target_chars = 6000

abbrev pub overlap_chars : ℕ
overlap_chars = 500

abbrev pub max_chunks : ℕ
max_chunks = 60

-- `page_spans`: a page with the bounds of its text in the whole.
pub record Span : Type 0 where
  pub page : ℕ
  pub start : ℕ
  pub stop : ℕ

abbrev last_page : List Span → ℕ
last_page [] = 1
last_page (s ∷ []) = s.page
last_page (s ∷ t ∷ spans) = last_page (t ∷ spans)

abbrev covers : ℕ → Span → Bool
covers offset s = leb s.start offset && ltb offset s.stop

abbrev page_or : ℕ → Option Span → ℕ
page_or d none = d
page_or d (some s) = s.page

-- `_page_for_offset`
unfoldable pub page_for_offset : List Span → ℕ → ℕ
page_for_offset spans offset = page_or (last_page spans) (first (covers offset) spans)

-- `_Segment`, with the `context` that its chunks carry.
pub record Segment : Type 0 where
  pub heading : Text
  pub parent : Text
  pub start : ℕ
  pub stop : ℕ
  pub context : Text

-- `step = max(1, target_chars - overlap_chars)`
abbrev pub step_of : ℕ → ℕ → ℕ
step_of target overlap = max 1 (target - overlap)

-- `full[a:b]`
abbrev pub slice : ℕ → ℕ → Text → Text
slice a b t = take (b - a) (drop a t)

module _ (spans : List Span) (full : Text) (target overlap : ℕ) where
  abbrev pub piece_at : Segment → ℕ → ℕ → Chunk
  piece_at seg pos index =
      let piece = take target (drop pos (slice seg.start seg.stop full)) in
      let abs_start = seg.start + pos in
      let abs_end = abs_start + length piece in
      record {
        index = index;
        section_heading = seg.heading;
        parent_section = seg.parent;
        page_start = page_for_offset spans abs_start;
        page_end = page_for_offset spans (max abs_start (abs_end - 1));
        text = piece;
        context_summary = seg.context;
        sub_index = 0;
      }

  -- The `while` loop over one segment. `index` is `len(chunks)`.
  unfoldable pub pieces : ℕ → Segment → ℕ → ℕ → List Chunk
  unfolding page_for_offset
  pieces zero seg pos index = []
  pieces (suc fuel) seg pos index =
      let rest = pieces fuel seg (pos + step_of target overlap) (index + 1) in
      let chunk = piece_at seg pos index in
      if ltb pos (length (slice seg.start seg.stop full))
      then (if leb seg.stop (seg.start + pos + length chunk.text) then chunk ∷ [] else chunk ∷ rest)
      else []

  -- The loop over the segments. The fuel for one segment is the length of the whole text and one: each
  -- round moves on by at least one character.
  unfoldable pub chunk_segments : List Segment → ℕ → List Chunk
  unfolding pieces
  chunk_segments [] index = []
  chunk_segments (seg ∷ segs) index =
      let new = pieces (length full + 1) seg 0 index in
      new ++ chunk_segments segs (index + length new)

  -- `raise ChunkCapExceeded()` is `none`.
  unfoldable pub build_chunks : ℕ → List Segment → Option (List Chunk)
  unfolding chunk_segments
  build_chunks cap segs =
      let chunks = chunk_segments segs 0 in if ltb cap (length chunks) then none else some chunks

-- `mid`, `overlap` and `mid_page` of `halve_chunk`
abbrev pub mid_of : Chunk → ℕ
mid_of c = length c.text / 2

abbrev pub half_overlap : Chunk → ℕ
half_overlap c = min (overlap_chars / 2) (mid_of c)

abbrev pub mid_page : Chunk → ℕ
mid_page c = c.page_start + (c.page_end - c.page_start) / 2

unfoldable pub halve_chunk : Chunk → Chunk × Chunk
halve_chunk c = (
  record c {
    page_end = max c.page_start (mid_page c);
    text = take (mid_of c + half_overlap c) c.text;
    sub_index = c.sub_index + 1;
  },
  record c {
    page_start = max c.page_start (mid_page c);
    text = drop (mid_of c - half_overlap c) c.text;
    sub_index = c.sub_index + 1;
  },
)
