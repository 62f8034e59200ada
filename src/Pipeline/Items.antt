-- ===== src/Pipeline/Items.antt =====
-- app/pipeline/mine.py and chunking.py: the data that the stages hand on.
use rfp_shred.Prelude.{Bool, List, Option, Text, [], if◌then◌else◌, none, some, ℕ, ◌==◌, ◌∷◌}

-- `Chunk`
pub record Chunk : Type 0 where
  pub index : ℕ
  pub section_heading : Text
  pub parent_section : Text
  pub page_start : ℕ
  pub page_end : ℕ
  pub text : Text
  pub context_summary : Text
  pub sub_index : ℕ

-- `MinedItem`
pub record MinedItem : Type 0 where
  pub clause_id : Text
  pub section : Text
  pub page : ℕ
  pub text : Text
  pub excerpt : Text
  pub is_requirement : Bool
  pub chunk_index : ℕ
  pub doc_order : ℕ

-- `CallRecord`, without the raw JSON and the version of the prompt, which are only stored.
pub record CallRecord : Type 0 where
  pub chunk_index : ℕ
  pub tokens_in : ℕ
  pub tokens_out : ℕ

-- `MineResult`
pub record MineResult : Type 0 where
  pub items : List MinedItem
  pub calls : List CallRecord
  pub failed_chunks : ℕ

abbrev pub empty_result : MineResult
empty_result = record { items = []; calls = []; failed_chunks = 0 }

-- `pages: dict[int, str]`, in the order of insertion, each page once.
abbrev pub Pages : Type 0
Pages = List (ℕ × Text)

unfoldable pub page_text : Pages → ℕ → Option Text
page_text [] p = none
page_text ((q, t) ∷ pages) p = let rest = page_text pages p in if q == p then some t else rest
