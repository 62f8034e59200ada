-- ===== src/Tests/Texts.antt =====
-- app/pipeline/text_utils.py, audit.py, filter.py and chunking.py at concrete inputs.
use rfp_shred.Prelude.{
  All, List, [], arith, codes, length, none, refl, some, sort_by, true, ◌<◌, ◌∷◌, ◌≡◌, ◌⊎◌,
}
use rfp_shred.Pipeline.Items.{Chunk}
use rfp_shred.Pipeline.TextUtils.{levenshtein_distance}
use rfp_shred.Pipeline.TextUtils.Normalize.{normalize_clause_id}
use rfp_shred.Pipeline.TextUtils.Distance.{levenshtein, levenshtein_distance-exact}
use rfp_shred.Pipeline.TextUtils.Containment.{
  fuzzy_contains, contains, scan, starts_of, Quotes, Resembles, fuzzy_contains_sound,
}
use rfp_shred.Pipeline.Audit.{audit_items}
use rfp_shred.Pipeline.Audit.Verified.{IsCited, audit_items-IsCited}
use rfp_shred.Pipeline.Chunking.{pieces, build_chunks, slice, chunk_segments}
use rfp_shred.Pipeline.Chunking.Pieces.{stitch, pieces-cover}
use rfp_shred.Tests.Samples.{
  ascii, one_block, pages, quoted, made_up, chunk, repeated, segment, spans,
}

levenshtein_distance-exact_example :
    levenshtein_distance (codes "shall") (codes "small") none
    ≡ levenshtein (codes "shall") (codes "small")
levenshtein_distance-exact_example = levenshtein_distance-exact (codes "shall") (codes "small")

accepted : (fuzzy_contains one_block (codes "offeror shell") (codes "offeror shall pay")).0 ≡ true
unfolding fuzzy_contains contains scan starts_of levenshtein_distance sort_by
accepted = refl

fuzzy_contains_sound_example :
    (0 < length (codes "offeror shell"))
    × (Quotes (codes "offeror shell") (codes "offeror shall pay")
        ⊎ Resembles (codes "offeror shell") (codes "offeror shall pay"))
fuzzy_contains_sound_example =
    fuzzy_contains_sound one_block (codes "offeror shell") (codes "offeror shall pay") accepted

audit_items-IsCited_example :
    All
      (IsCited ascii one_block pages)
      (audit_items ascii one_block (quoted ∷ made_up ∷ []) pages).passed
audit_items-IsCited_example = audit_items-IsCited ascii one_block (quoted ∷ made_up ∷ []) pages

abbrev long_chunk : Chunk
long_chunk = record chunk { text = repeated 600 }

pieces-cover_example :
    stitch 1 (pieces spans (codes "abcdefghij") 3 1 11 segment 0 0) ≡ slice 1 9 (codes "abcdefghij")
pieces-cover_example =
    pieces-cover spans (codes "abcdefghij") 3 1 segment (omega arith) (omega arith) (omega arith) 0

abbrev two_pieces : List Chunk
two_pieces = chunk_segments spans (codes "abcdefghij") 5 1 (segment ∷ []) 0

built : build_chunks spans (codes "abcdefghij") 5 1 4 (segment ∷ []) ≡ some two_pieces
unfolding build_chunks
built = refl

-- Normalizing a clause id twice can change it again.
normalize_twice :
    (normalize_clause_id ascii (codes "a;-") ≡ codes "a;")
    × (normalize_clause_id ascii (codes "a;") ≡ codes "a")
unfolding normalize_clause_id
normalize_twice = (refl, refl)
