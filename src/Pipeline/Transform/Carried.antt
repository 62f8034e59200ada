-- ===== src/Pipeline/Transform/Carried.antt =====
-- app/pipeline/transform.py: what people have entered, over a new extraction.
use rfp_shred.Prelude.{
  Memᴰ, All-Mem, All, All-append, All-keep, All-map, All-map_list, Bool-cases, List, Option, Text,
  [], any, codes, if◌then◌else◌, inl, inr, none, not, refl, some, ℕ, ◌&&◌, ◌+◌, ◌==◌, ◌∷◌, ◌≡◌, ◌⊎◌,
}
use rfp_shred.Models.{Session, Requirement, RawModelOutput}
use rfp_shred.Pipeline.Items.{MinedItem, MineResult}
use rfp_shred.Pipeline.TextUtils.{text_eq}
use rfp_shred.Pipeline.TextUtils.Normalize.{Unicode}
use rfp_shred.Pipeline.Audit.{Reason, AuditOutcome}
use rfp_shred.Pipeline.Filter.{FilterOutcome}
use rfp_shred.Pipeline.Transform.Kept.{Entered, IsPlaced, replace_matrix-IsPlaced}
use rfp_shred.Pipeline.Transform.{
  Key, key_eq, Placement, pop_row, item_key, requirement_key, update_row, place_found, place,
  place_all, settle_row, settle_rows, replace_matrix, persist_mine_result, rewrite_row, outputs_of,
  surviving, rows_of,
}

-- The row is blank, or carries on what was entered in a row of the table.
abbrev pub IsCarried : List Requirement → Requirement → Type 0
IsCarried table r =
    ((r.response ≡ []) × (r.tags ≡ []) × (r.verified_at ≡ none))
    ⊎ ((old : Requirement) × Memᴰ old table × Entered old r)

module _ (table : List Requirement) where
  IsCarried-update :
      (i : ℕ) (f : Requirement → Requirement) (rows : List Requirement)
      → ((r : Requirement) → IsCarried table r → IsCarried table (f r))
      → All (IsCarried table) rows
      → All (IsCarried table) (update_row i f rows)
  IsCarried-update i f rows keeps h = All-map_list (IsCarried table) (IsCarried table) _ one rows h
    where
      one : (r : Requirement) → IsCarried table r → IsCarried table (if r.id == i then f r else r)
      one r k = elim (Bool-cases (r.id == i)) [ inl e ↦ rw e (keeps r k) | inr e ↦ rw e k ]

  module _ (u : Unicode) where
    place_all-IsCarried :
        (new_row : ℕ → ℕ) (rfp_id : ℕ) (outputs : List RawModelOutput) (items : List MinedItem)
        (p : Placement)
        → All (IsCarried table) p.table
        → All (IsCarried table) (place_all u new_row rfp_id outputs items p).table
    unfolding place_all
    place_all-IsCarried new_row rfp_id outputs [] p h = h
    place_all-IsCarried new_row rfp_id outputs (item ∷ items) p h =
        place_all-IsCarried new_row rfp_id outputs items (place u new_row rfp_id outputs item p)
          (found (pop_row u (item_key u item) p.pool))
      where
        found :
            (o : Option (Requirement × List Requirement))
            → All (IsCarried table) (place_found u new_row rfp_id outputs item o p).table
        found none = All-append (IsCarried table) p.table _ h (inl (refl, refl, refl), tt)
        found (some (row, pool)) =
            IsCarried-update row.id (rewrite_row u new_row rfp_id outputs (p.seq + 1) item) p.table
              (λ r k. k) h

    settle_row-IsCarried :
        (seen : List Key) (row : Requirement) (p : Placement)
        → All (IsCarried table) p.table
        → All (IsCarried table) (settle_row u seen row p).table
    settle_row-IsCarried seen row p h = elim (Bool-cases (any (λ i. i == row.id) p.retained)) [
      | inl e ↦ rw e h
      | inr e ↦
          rw e
            (elim (Bool-cases (
              text_eq row.section (codes "(restored)")
              && not (any (key_eq (requirement_key u row)) seen))) [
                | inl k ↦ rw k (
                    IsCarried-update row.id (λ r. record r { seq = p.seq + 1 }) p.table (λ r c. c)
                      h)
                | inr k ↦ rw k (All-keep (IsCarried table) _ p.table h)
              ])
    ]

    settle_rows-IsCarried :
        (seen : List Key) (rows : List Requirement) (p : Placement)
        → All (IsCarried table) p.table
        → All (IsCarried table) (settle_rows u seen rows p).table
    unfolding settle_rows
    settle_rows-IsCarried seen [] p h = h
    settle_rows-IsCarried seen (row ∷ rows) p h =
        settle_rows-IsCarried seen rows (settle_row u seen row p)
          (settle_row-IsCarried seen row p h)

-- A new extraction carries over what people have entered in the rows that it finds again: for each
-- surviving item whose clause, page and text, normalized, are those of a row of the solicitation, the
-- id, the response, the tags and the verification of the first such row are still in one row after
-- `persist_mine_result`. And it alters none of it: each row of the table is then a blank one, or has the
-- id, the solicitation, the response, the tags and the verification of a row that was there before.
pub persist_mine_result-IsCarried :
    (u : Unicode) (new_output new_row : ℕ → ℕ) (describe : Reason → Text) (rfp_id run_id : ℕ)
    (mine : MineResult) (audit : AuditOutcome) (filtered : FilterOutcome) (s : Session)
    → let after =
        (persist_mine_result u new_output new_row describe rfp_id run_id mine audit filtered s).1 in
      All (IsCarried s.requirements) after.requirements
      × All (IsPlaced u rfp_id s.requirements after.requirements) (surviving u audit.passed)
unfolding persist_mine_result replace_matrix
persist_mine_result-IsCarried u new_output new_row describe rfp_id run_id mine audit filtered s = (
  settle_rows-IsCarried s.requirements u _ (rows_of u rfp_id s.requirements) _ (
      place_all-IsCarried s.requirements u new_row rfp_id
        (outputs_of new_output run_id 0 mine.calls) (surviving u audit.passed) _
        (All-map (λ r m. inr (r, m, (refl, refl, refl, refl, refl))) s.requirements
          (All-Mem s.requirements))),
  replace_matrix-IsPlaced u new_row rfp_id (outputs_of new_output run_id 0 mine.calls)
      (surviving u audit.passed) s.requirements,
)
