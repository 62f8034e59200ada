-- ===== src/Pipeline/Audit/Verified.antt =====
-- app/pipeline/audit.py: what passes the audit, and where each item goes.
use rfp_shred.Prelude.{
  All, All-append, Bool, List, Option, Text, [], all, append-nil, false, if◌then◌else◌, is_some,
  keep, keep-onto, length, map, map-append, none, not, refl, some, sym, true, ℕ, ◌++◌, ◌<◌, ◌∷◌,
  ◌≡◌, ◌⊎◌,
}
use rfp_shred.Pipeline.Items.{MinedItem, Pages, page_text}
use rfp_shred.Pipeline.TextUtils.Normalize.{Unicode, normalize_text}
use rfp_shred.Pipeline.TextUtils.Containment.{
  Block, Detail, Quotes, Resembles, fuzzy_contains_sound,
}
use rfp_shred.Pipeline.Audit.{
  Label, excerpt, requirement_text, Reason, AuditFailure, AuditOutcome, judge, check, or_else,
  verification_failure, normalized, failure_on, settle, audit_from, audit_items,
}

-- The page holds the candidate word for word, or a stretch within a tenth of it.
abbrev pub Verifies : Text → Text → Type 0
Verifies candidate page =
    (0 < length candidate) × (Quotes candidate page ⊎ Resembles candidate page)

module _ (u : Unicode) (matching_blocks : Text → Text → List Block) where
  -- The item cites a page of the document, and its excerpt and its whole text are on that page,
  -- all normalized.
  pub record IsCited (pages : Pages) (item : MinedItem) : Type 0 where
    pub on_page : Text
    pub cited : page_text (normalized u matching_blocks pages) item.page ≡ some on_page
    pub excerpt_verifies : Verifies (normalize_text u item.excerpt) on_page
    pub text_verifies : Verifies (normalize_text u item.text) on_page

  judge-none :
      (label : Label) (page : ℕ) (r : Bool × Detail)
      → judge u matching_blocks label page r ≡ none
      → r.0 ≡ true
  judge-none label page (true, d) h = refl
  judge-none label page (false, d) h = cc

  check-Verifies :
      (label : Label) (page : ℕ) (candidate on_page : Text)
      → check u matching_blocks label page candidate on_page ≡ none
      → Verifies candidate on_page
  unfolding check
  check-Verifies label page [] on_page h = cc
  check-Verifies label page (c ∷ candidate) on_page h =
      fuzzy_contains_sound matching_blocks (c ∷ candidate) on_page (judge-none label page _ h)

  or_else-none :
      (a b : Option Reason) → or_else u matching_blocks a b ≡ none → (a ≡ none) × (b ≡ none)
  or_else-none none b h = (refl, h)
  or_else-none (some r) b h = cc

  pub failure_on-IsCited :
      (pages : Pages) (item : MinedItem)
      → failure_on u matching_blocks item (page_text (normalized u matching_blocks pages) item.page)
        ≡ none
      → IsCited pages item
  unfolding verification_failure
  failure_on-IsCited pages item h =
      for_page (page_text (normalized u matching_blocks pages) item.page) refl h
    where
      for_page :
          (o : Option Text)
          → page_text (normalized u matching_blocks pages) item.page ≡ o
          → failure_on u matching_blocks item o ≡ none
          → IsCited pages item
      for_page none found h = cc
      for_page (some t) found h =
          let (first_ok, second_ok) = or_else-none _ _ h in
          record {
            on_page = t;
            cited = found;
            excerpt_verifies = check-Verifies excerpt item.page _ t first_ok;
            text_verifies = check-Verifies requirement_text item.page _ t second_ok;
          }

  settle-passed :
      (pages : Pages) (item : MinedItem) (out : AuditOutcome) (o : Option Reason)
      → (o ≡ none → IsCited pages item)
      → All (IsCited pages) out.passed
      → All (IsCited pages) (settle u matching_blocks item o out).passed
  settle-passed pages item out none cited all =
      All-append (IsCited pages) out.passed _ all (cited refl, tt)
  settle-passed pages item out (some r) cited all = all

  audit_from-IsCited :
      (pages : Pages) (items : List MinedItem) (out : AuditOutcome)
      → All (IsCited pages) out.passed
      → All
          (IsCited pages)
          (audit_from u matching_blocks out items (normalized u matching_blocks pages)).passed
  unfolding audit_from
  audit_from-IsCited pages [] out all = all
  audit_from-IsCited pages (item ∷ items) out all =
      audit_from-IsCited pages items _
        (settle-passed pages item out _ (failure_on-IsCited pages item) all)

  -- No row that passes the audit is fabricated: it cites a page of the document, and both its excerpt
  -- and its requirement text, normalized, are on the normalized text of that page, word for word or
  -- up to a Levenshtein distance of a tenth of their length.
  pub audit_items-IsCited :
      (items : List MinedItem) (pages : Pages)
      → All (IsCited pages) (audit_items u matching_blocks items pages).passed
  unfolding audit_items
  audit_items-IsCited items pages = audit_from-IsCited pages items _ tt

  -- The decision of the audit on one item.
  abbrev pub passes : Pages → MinedItem → Bool
  passes pages item = not (
      is_some (
        failure_on u matching_blocks item
          (page_text (normalized u matching_blocks pages) item.page)))

  abbrev pub fails : Pages → MinedItem → Bool
  fails pages item = not (passes pages item)

  abbrev pub failed_item : AuditFailure → MinedItem
  failed_item f = f.item

  settle-routes :
      (item : MinedItem) (out : AuditOutcome) (o : Option Reason)
      → ((settle u matching_blocks item o out).passed
          ≡ out.passed ++ (if not (is_some o) then item ∷ [] else []))
        × (map failed_item (settle u matching_blocks item o out).failures
            ≡ map failed_item out.failures ++ (if not (not (is_some o)) then item ∷ [] else []))
  settle-routes item out none = (refl, sym (append-nil _))
  settle-routes item out (some r) = (sym (append-nil _), map-append failed_item out.failures _)

  audit_from-partition :
      (pages : Pages) (items : List MinedItem) (out : AuditOutcome)
      → let final = audit_from u matching_blocks out items (normalized u matching_blocks pages) in
        (final.passed ≡ out.passed ++ keep (passes pages) items)
        × (map failed_item final.failures
            ≡ map failed_item out.failures ++ keep (fails pages) items)
  unfolding audit_from
  audit_from-partition pages [] out = (sym (append-nil _), sym (append-nil _))
  audit_from-partition pages (item ∷ items) out =
      let o =
        failure_on u matching_blocks item
          (page_text (normalized u matching_blocks pages) item.page) in
      let (kept, dropped) =
        audit_from-partition pages items (settle u matching_blocks item o out) in
      let (passed, failed) = settle-routes item out o in
      (
        keep-onto (passes pages) item items _ _ _ kept passed,
        keep-onto (fails pages) item items _ _ _ dropped failed,
      )

  -- Citation failures are never silently discarded: each item of the input stands in exactly one
  -- of the two lists, among the passed ones if the audit passes it and among the failures
  -- if not, in the order of the input.
  audit_items-partition :
      (items : List MinedItem) (pages : Pages)
      → ((audit_items u matching_blocks items pages).passed ≡ keep (passes pages) items)
        × (map failed_item (audit_items u matching_blocks items pages).failures
            ≡ keep (fails pages) items)
  unfolding audit_items
  audit_items-partition items pages = audit_from-partition pages items _
