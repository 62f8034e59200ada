-- ===== src/Pipeline/Audit.antt =====
-- app/pipeline/audit.py: the citation audit. Unicode's tables and the matching blocks of `difflib` are
-- the parameters of the text checks. `locate_source_pages` assigns to the items in place, here
-- it returns the list of the items as they are afterwards.
pub mod Verified
use rfp_shred.Prelude.{
  Bool, List, Option, Text, [], false, if◌then◌else◌, is_some, map, none, some, true, ℕ, ◌++◌, ◌+◌,
  ◌-◌, ◌/◌, ◌∷◌,
}
use rfp_shred.Pipeline.Items.{MinedItem, Pages, page_text}
use rfp_shred.Pipeline.TextUtils.Normalize.{Unicode, normalize_text}
use rfp_shred.Pipeline.TextUtils.Containment.{Block, Detail, fuzzy_contains}

pub data Label : Type 0 where
  excerpt requirement_text : Label

-- The reasons of the failures, by what their text is formatted from.
pub data Reason : Type 0 where
  was_empty : Label → Reason
  not_verified : Label → ℕ → Detail → Reason
  outside_range : ℕ → Reason

pub record AuditFailure : Type 0 where
  pub item : MinedItem
  pub reason : Reason

pub record AuditOutcome : Type 0 where
  pub passed : List MinedItem
  pub failures : List AuditFailure

module _ (u : Unicode) (matching_blocks : Text → Text → List Block) where
  abbrev judge : Label → ℕ → Bool × Detail → Option Reason
  judge label page (true, detail) = none
  judge label page (false, detail) = some (not_verified label page detail)

  -- One round of the loop over `checks`, on the normalized candidate.
  unfoldable pub check : Label → ℕ → Text → Text → Option Reason
  unfolding fuzzy_contains
  check label page [] on_page = some (was_empty label)
  check label page (c ∷ candidate) on_page =
      judge label page (fuzzy_contains matching_blocks (c ∷ candidate) on_page)

  abbrev or_else : Option Reason → Option Reason → Option Reason
  or_else none second = second
  or_else (some r) second = some r

  unfoldable pub verification_failure : MinedItem → Text → Option Reason
  verification_failure item on_page =
      or_else (check excerpt item.page (normalize_text u item.excerpt) on_page)
        (check requirement_text item.page (normalize_text u item.text) on_page)

  abbrev pub normalized : Pages → Pages
  normalized pages = map (λ (p : ℕ × Text). (p.0, normalize_text u p.1)) pages

  -- The pages, normalized already, on which the item verifies.
  unfoldable pub matching_pages : MinedItem → Pages → List ℕ
  matching_pages item [] = []
  matching_pages item ((page, t) ∷ pages) =
      let rest = matching_pages item pages in
      if is_some (verification_failure item t) then rest else page ∷ rest

  abbrev pub move : MinedItem → List ℕ → MinedItem
  move item (page ∷ []) = record item { page = page }
  move item _ = item

  unfoldable pub locate_source_pages : List MinedItem → Pages → List MinedItem
  unfolding matching_pages
  locate_source_pages items pages =
      map (λ item. move item (matching_pages item (normalized pages))) items

  abbrev pub failure_on : MinedItem → Option Text → Option Reason
  failure_on item none = some (outside_range item.page)
  failure_on item (some t) = verification_failure item t

  -- One round of the loop of `audit_items`.
  abbrev pub settle : MinedItem → Option Reason → AuditOutcome → AuditOutcome
  settle item none out = record out { passed = out.passed ++ item ∷ [] }
  settle item (some r) out = record out {
    failures = out.failures ++ record { item = item; reason = r } ∷ [];
  }

  unfoldable pub audit_from : AuditOutcome → List MinedItem → Pages → AuditOutcome
  audit_from out [] pages = out
  audit_from out (item ∷ items) pages =
      audit_from (settle item (failure_on item (page_text pages item.page)) out) items pages

  unfoldable pub audit_items : List MinedItem → Pages → AuditOutcome
  unfolding audit_from
  audit_items items pages =
      audit_from (record { passed = []; failures = [] }) items (normalized pages)
