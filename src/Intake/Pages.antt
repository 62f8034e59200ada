-- ===== src/Intake/Pages.antt =====
-- app/pipeline/pagemap.py: what the OCR pass may change.
use rfp_shred.Prelude.{
  ==_iff, Bool, Bool-cases, List, Text, [], any, ap, arith, false, inl, inr, length, ltb, map, refl,
  subst, sym, ℕ, ◌==◌, ◌∙◌, ◌∷◌, ◌≡◌,
}
use rfp_shred.Results.{Result, returned, raised}
use rfp_shred.Pipeline.Items.{Pages, page_text}
use rfp_shred.Intake.Pagemap.{
  flagged_pages, other_error, ocr_failed_threshold, extract_pages, ocr_subpdf, pipeline_error,
  ocr_text, build_page_map, with_ocr, merge_ocr, ocr_loop, ocr_round, set_page, Tools, PageMap,
  File, ToolError,
}

-- The number of a page.
abbrev pub page_no : ℕ × Text → ℕ
page_no p = p.0

set_page-numbers :
    (p : ℕ) (t : Text) (pages : Pages) → map page_no (set_page p t pages) ≡ map page_no pages
unfolding set_page
set_page-numbers p t [] = refl
set_page-numbers p t ((q, old) ∷ pages) = ap (λ ps. q ∷ ps) (set_page-numbers p t pages)

set_page-other :
    (p q : ℕ) (t : Text) (pages : Pages)
    → (p == q) ≡ false
    → page_text (set_page p t pages) q ≡ page_text pages q
unfolding set_page page_text
set_page-other p q t [] h = refl
set_page-other p q t ((k, old) ∷ pages) h = elim (Bool-cases (k == q)) [
  | inl e ↦
      let not_p : (k == p) ≡ false = ground (arith, ==_iff k q, ==_iff k p, ==_iff p q) in
      rw (e, not_p) refl
  | inr e ↦ rw e (set_page-other p q t pages h)
]

module _ (is_space : ℕ → Bool) (tools : Tools) where
  -- The pages are the same, but for the texts of the pages of a list.
  abbrev Keeps : List ℕ → Pages → Pages → Type 0
  Keeps flagged pages pages' =
      (map page_no pages' ≡ map page_no pages)
      × ((q : ℕ) → any (λ p. p == q) flagged ≡ false → page_text pages' q ≡ page_text pages q)

  ocr_round-Keeps :
      (ocr : Pages) (p : ℕ) (pages : Pages) (bad : List ℕ)
      → let pages' = (ocr_round is_space tools ocr p (pages, bad)).0 in
        (map page_no pages' ≡ map page_no pages)
        × ((q : ℕ) → (p == q) ≡ false → page_text pages' q ≡ page_text pages q)
  ocr_round-Keeps ocr p pages bad =
      elim (Bool-cases (ltb (length (ocr_text is_space tools ocr p)) ocr_failed_threshold)) [
        | inl e ↦ rw e (refl, λ q h. refl)
        | inr e ↦ rw e (
          set_page-numbers p (ocr_text is_space tools ocr p) pages,
          λ q h. set_page-other p q (ocr_text is_space tools ocr p) pages h,
        )
      ]

  ocr_loop-Keeps :
      (ocr : Pages) (flagged : List ℕ) (pages : Pages) (bad : List ℕ)
      → Keeps flagged pages (ocr_loop is_space tools ocr flagged (pages, bad)).0
  unfolding ocr_loop
  ocr_loop-Keeps ocr [] pages bad = (refl, λ q h. refl)
  ocr_loop-Keeps ocr (p ∷ ps) pages bad =
      let (pages', bad') = ocr_round is_space tools ocr p (pages, bad) in
      let (numbers, others) = ocr_round-Keeps ocr p pages bad in
      let (numbers', others') = ocr_loop-Keeps ocr ps pages' bad' in
      (numbers' ∙ numbers, λ q h. others' q (ground arith) ∙ others q (ground arith))

  -- What a result of the OCR pass keeps, where there is one.
  abbrev KeepsResult : List ℕ → Pages → Result ToolError PageMap → Type 0
  KeepsResult flagged pages (raised e) = Unit
  KeepsResult flagged pages (returned m) = Keeps flagged pages m.pages

  merge_ocr-Keeps :
      (pages : Pages) (flagged : List ℕ) (r : Result ToolError Pages)
      → KeepsResult flagged pages (merge_ocr is_space tools pages flagged r)
  merge_ocr-Keeps pages flagged (returned ocr) = ocr_loop-Keeps ocr flagged pages []
  merge_ocr-Keeps pages flagged (raised (pipeline_error t)) =
      ocr_loop-Keeps [] flagged pages flagged
  merge_ocr-Keeps pages flagged (raised (other_error t)) = tt

  with_ocr-Keeps :
      (file : File) (pages : Pages) (flagged : List ℕ)
      → KeepsResult flagged pages (with_ocr is_space tools file pages flagged)
  with_ocr-Keeps file pages [] = (refl, λ q h. refl)
  with_ocr-Keeps file pages (p ∷ ps) =
      merge_ocr-Keeps pages (p ∷ ps) (ocr_subpdf is_space tools file (p ∷ ps))

  -- The pass over the pages with too little text leaves the numbers of all pages, and the text of
  -- every other page, as they were read, whatever the OCR tool gives for which page.
  pub build_page_map-keeps :
      (file : File) (pages : Pages) (m : PageMap) (q : ℕ)
      → extract_pages is_space tools file ≡ returned pages
      → build_page_map is_space tools file ≡ returned m
      → any (λ p. p == q) (flagged_pages is_space tools pages) ≡ false
      → (map page_no m.pages ≡ map page_no pages) × (page_text m.pages q ≡ page_text pages q)
  unfolding build_page_map
  build_page_map-keeps file pages m q read built other =
      let flagged = flagged_pages is_space tools pages in
      let same : build_page_map is_space tools file ≡ with_ocr is_space tools file pages flagged =
        rw read refl in
      let kept =
        subst (KeepsResult flagged pages) (sym same ∙ built) (with_ocr-Keeps file pages flagged) in
      (kept.0, kept.1 q other)
