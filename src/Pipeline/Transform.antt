-- ===== src/Pipeline/Transform.antt =====
-- app/pipeline/transform.py: `persist_mine_result`. The ids of new rows and the text of an audit
-- failure, which Python's formatting makes, come from outside. The tables are read and written row by
-- row as the loops do; `existing_by_key` and the candidates taken from it are one list, `pool`, of the
-- rows that no item has taken yet.
pub mod Survivors
pub mod Kept
pub mod Carried
pub mod Drops
use rfp_shred.Prelude.{
  false, Bool, List, Option, String, Text, [], any, codes, if◌then◌else◌, keep, leb, length, ltb,
  map, none, not, some, sort_by, take, ℕ, ◌&&◌, ◌++◌, ◌+◌, ◌-◌, ◌/◌, ◌==◌, ◌||◌, ◌∷◌,
}
use rfp_shred.Models.{
  forget_requirement, Session, Requirement, FilteredLine, AuditDrop, RawModelOutput,
}
use rfp_shred.Pipeline.Items.{MinedItem, CallRecord, MineResult}
use rfp_shred.Pipeline.TextUtils.{text_eq}
use rfp_shred.Pipeline.TextUtils.Normalize.{Unicode, normalize_text, normalize_clause_id}
use rfp_shred.Pipeline.Audit.{Reason, AuditFailure, AuditOutcome}
use rfp_shred.Pipeline.Filter.{FilterOutcome}

-- `PersistOutcome`
pub record PersistOutcome : Type 0 where
  pub requirements : ℕ
  pub filtered_lines : ℕ
  pub audit_drops : ℕ
  pub raw_outputs : ℕ

-- The tuple that `_item_key` and `_requirement_key` return.
pub record Key : Type 0 where
  pub clause_id : Text
  pub page : ℕ
  pub body : Text

unfoldable pub key_eq : Key → Key → Bool
unfolding text_eq
key_eq k l = text_eq k.clause_id l.clause_id && k.page == l.page && text_eq k.body l.body

-- `key=lambda i: (i.page, i.doc_order)`
abbrev pub in_order : MinedItem → MinedItem → Bool
in_order i j = ltb i.page j.page || (i.page == j.page && leb i.doc_order j.doc_order)

-- `for call in mine.calls`: `n` is the number of the row among those that are added.
unfoldable pub outputs_of : (ℕ → ℕ) → ℕ → ℕ → List CallRecord → List RawModelOutput
outputs_of new_output run_id n [] = []
outputs_of new_output run_id n (call ∷ calls) =
    record {
      id = new_output n;
      extraction_run_id = run_id;
      chunk_index = call.chunk_index;
      tokens_in = call.tokens_in;
      tokens_out = call.tokens_out;
    }
    ∷ outputs_of new_output run_id (n + 1) calls

abbrev or_later : Option ℕ → Option ℕ → Option ℕ
or_later early none = early
or_later early (some i) = some i

-- `output_ids.get(chunk_index)`: the last row of a chunk wins.
unfoldable pub output_id : List RawModelOutput → ℕ → Option ℕ
output_id [] i = none
output_id (o ∷ os) i = or_later (if o.chunk_index == i then some o.id else none) (output_id os i)

unfoldable pub drops_of : (ℕ → ℕ) → (Reason → Text) → ℕ → ℕ → List AuditFailure → List AuditDrop
drops_of new_row describe rfp_id seq [] = []
drops_of new_row describe rfp_id seq (f ∷ fs) =
    record {
      id = new_row seq;
      rfp_id = rfp_id;
      seq = seq;
      page = f.item.page;
      excerpt = f.item.excerpt;
      text = f.item.text;
      audit_failure_reason = describe f.reason;
      re_included = false;
    }
    ∷ drops_of new_row describe rfp_id (seq + 1) fs

unfoldable pub lines_of : (ℕ → ℕ) → ℕ → ℕ → List (MinedItem × String) → List FilteredLine
lines_of new_row rfp_id seq [] = []
lines_of new_row rfp_id seq ((item, reason) ∷ rest) =
    record {
      id = new_row seq;
      rfp_id = rfp_id;
      seq = seq;
      page = item.page;
      text_preview = take 80 item.text;
      full_text = item.text;
      filter_reason = codes reason;
      re_included = false;
    }
    ∷ lines_of new_row rfp_id (seq + 1) rest

-- The state of the loops over the requirements: `seq`, the rows that no item has taken, the retained
-- ids, and the table.
pub record Placement : Type 0 where
  pub seq : ℕ
  pub pool : List Requirement
  pub retained : List ℕ
  pub table : List Requirement

abbrev pub update_row : ℕ → (Requirement → Requirement) → List Requirement → List Requirement
update_row i f = map (λ (r : Requirement). if r.id == i then f r else r)

abbrev pub push :
    Requirement → Option (Requirement × List Requirement) → Option (Requirement × List Requirement)
push r none = none
push r (some (q, rs)) = some (q, r ∷ rs)

module _ (u : Unicode) where
  abbrev pub item_key : MinedItem → Key
  item_key item = record {
    clause_id = normalize_clause_id u item.clause_id;
    page = item.page;
    body = normalize_text u item.text;
  }

  abbrev pub requirement_key : Requirement → Key
  requirement_key row = record {
    clause_id = normalize_clause_id u row.clause_id;
    page = row.page;
    body = normalize_text u row.body;
  }

  -- The loop that skips the items whose key was seen.
  unfoldable pub dedupe : List Key → List MinedItem → List MinedItem
  dedupe seen [] = []
  dedupe seen (item ∷ items) =
      let skipped = dedupe seen items in
      let kept = item ∷ dedupe (item_key item ∷ seen) items in
      if any (key_eq (item_key item)) seen then skipped else kept

  unfoldable pub surviving : List MinedItem → List MinedItem
  unfolding dedupe
  surviving passed = dedupe [] (sort_by in_order passed)

  -- `candidates.pop(0) if candidates else None`, with the rows that are left.
  unfoldable pub pop_row : Key → List Requirement → Option (Requirement × List Requirement)
  pop_row k [] = none
  pop_row k (r ∷ rs) =
      let later = push r (pop_row k rs) in
      if key_eq k (requirement_key r) then some (r, rs) else later

  module _ (new_row : ℕ → ℕ) (rfp_id : ℕ) (outputs : List RawModelOutput) where
    abbrev pub fresh_row : ℕ → MinedItem → Requirement
    fresh_row seq item = record {
      id = new_row seq;
      rfp_id = rfp_id;
      seq = seq;
      clause_id = normalize_clause_id u item.clause_id;
      section = item.section;
      page = item.page;
      body = item.text;
      excerpt = item.excerpt;
      response = [];
      verified_at = none;
      tags = [];
      model_output_id = output_id outputs item.chunk_index;
    }

    -- The assignments to a row that an item matches.
    abbrev pub rewrite_row : ℕ → MinedItem → Requirement → Requirement
    rewrite_row seq item row = record row {
      seq = seq;
      clause_id = normalize_clause_id u item.clause_id;
      section = item.section;
      page = item.page;
      body = item.text;
      excerpt = item.excerpt;
      model_output_id = output_id outputs item.chunk_index;
    }

    abbrev pub place_found :
        MinedItem → Option (Requirement × List Requirement) → Placement → Placement
    place_found item none p = record p {
      seq = p.seq + 1;
      table = p.table ++ fresh_row (p.seq + 1) item ∷ [];
    }
    place_found item (some (row, pool)) p = record p {
      seq = p.seq + 1;
      pool = pool;
      retained = row.id ∷ p.retained;
      table = update_row row.id (rewrite_row (p.seq + 1) item) p.table;
    }

    abbrev pub place : MinedItem → Placement → Placement
    place item p = place_found item (pop_row (item_key item) p.pool) p

    unfoldable pub place_all : List MinedItem → Placement → Placement
    unfolding pop_row
    place_all [] p = p
    place_all (item ∷ items) p = place_all items (place item p)

  -- One round of the loop over the existing rows.
  abbrev pub settle_row : List Key → Requirement → Placement → Placement
  settle_row seen row p =
      if any (λ i. i == row.id) p.retained
      then p
      else if text_eq row.section (codes "(restored)")
          && not (any (key_eq (requirement_key row)) seen)
      then record p {
        seq = p.seq + 1;
        retained = row.id ∷ p.retained;
        table = update_row row.id (λ r. record r { seq = p.seq + 1 }) p.table;
      }
      else record p { table = keep (λ (r : Requirement). not (r.id == row.id)) p.table }

  unfoldable pub settle_rows : List Key → List Requirement → Placement → Placement
  settle_rows seen [] p = p
  settle_rows seen (row ∷ rows) p = settle_rows seen rows (settle_row seen row p)

  abbrev pub rows_of : ℕ → List Requirement → List Requirement
  rows_of rfp_id = keep (λ (r : Requirement). r.rfp_id == rfp_id)

  -- Both loops, on the table of requirements.
  unfoldable pub replace_matrix :
      (new_row : ℕ → ℕ) → ℕ → List RawModelOutput → List MinedItem → List Requirement → Placement
  unfolding place_all settle_rows
  replace_matrix new_row rfp_id outputs items table =
      let existing = rows_of rfp_id table in
      let start : Placement = record { seq = 0; pool = existing; retained = []; table = table } in
      settle_rows (map item_key items) existing (place_all new_row rfp_id outputs items start)

  -- The rows that the loops deleted, which the corrections forget by their foreign key.
  abbrev pub row_gone : List Requirement → List Requirement → ℕ → Bool
  row_gone before after i =
      any (λ (r : Requirement). r.id == i) before
      && not (any (λ (r : Requirement). r.id == i) after)

  unfoldable pub persist_mine_result :
      (new_output new_row : ℕ → ℕ)
      → (Reason → Text)
      → (rfp_id run_id : ℕ) → MineResult
      → AuditOutcome
      → FilterOutcome
      → Session
      → PersistOutcome × Session
  unfolding replace_matrix surviving drops_of lines_of outputs_of
  persist_mine_result new_output new_row describe rfp_id run_id mine audit filtered s =
      let outputs = outputs_of new_output run_id 0 mine.calls in
      let matrix = replace_matrix new_row rfp_id outputs (surviving audit.passed) s.requirements in
      let drops =
        drops_of new_row describe rfp_id 1
          (sort_by (λ (f g : AuditFailure). in_order f.item g.item) audit.failures) in
      let lines =
        lines_of new_row rfp_id 1
          (sort_by (λ (f g : MinedItem × String). in_order f.0 g.0) filtered.filtered) in
      (
        record {
          requirements = matrix.seq;
          filtered_lines = length lines;
          audit_drops = length drops;
          raw_outputs = length mine.calls;
        },
        record s {
          raw_outputs = s.raw_outputs ++ outputs;
          requirements = matrix.table;
          corrections =
              map (forget_requirement (row_gone s.requirements matrix.table)) s.corrections;
          filtered_lines =
              keep (λ (l : FilteredLine). not (l.rfp_id == rfp_id)) s.filtered_lines ++ lines;
          audit_drops = keep (λ (d : AuditDrop). not (d.rfp_id == rfp_id)) s.audit_drops ++ drops;
        },
      )
