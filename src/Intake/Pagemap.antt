-- ===== src/Intake/Pagemap.antt =====
-- app/pipeline/pagemap.py: the texts of the pages of a PDF file, with the pages that need OCR. The
-- readers of PDF files, `ocrmypdf` and LibreOffice are parameters, on what a path holds.
use rfp_shred.Prelude.{
  Bool, List, Option, Text, [], any, codes, false, if◌then◌else◌, keep, length, ltb, map, none,
  some, suc, take, true, zero, ℕ, ◌++◌, ◌+◌, ◌-◌, ◌==◌, ◌∷◌,
}
use rfp_shred.Results.{Result, returned, raised, ◌>>=◌}
use rfp_shred.Pipeline.Items.{Pages, page_text}
use rfp_shred.Intake.Files.{Bytes}
use rfp_shred.Pipeline.TextUtils.Normalize.{strip}

-- What a path holds, if it exists.
abbrev pub File : Type 0
File = Option Bytes

-- `PipelineError`, or any other exception, each with its text.
pub data ToolError : Type 0 where
  pipeline_error other_error : Text → ToolError

-- What LibreOffice does: it does not end in time, it exits with an error, or without one and with or
-- without an output.
pub data Conversion : Type 0 where
  timed_out : Conversion
  exit_failed : Text → Conversion
  no_output : Conversion
  converted : Bytes → Conversion

-- The tools of the host, each `none` where it is not installed. A page's text may be missing; with pypdf
-- a page may raise.
pub record Tools : Type 0 where
  pub pdfplumber : Option (File → Result ToolError (List (Option Text)))
  pub pypdf : File → Result ToolError (List (Result ToolError (Option Text)))
  pub sub_pdf : File → List ℕ → Result ToolError Bytes
  pub ocrmypdf : Option (Bytes → Result Text Bytes)
  pub soffice : Option (File → Conversion)
  pub libreoffice_lock : Bool

pub record PageMap : Type 0 where
  pub pages : Pages
  pub page_count : ℕ
  pub ocr_flagged : List ℕ
  pub ocr_failed : List ℕ

abbrev pub ocr_char_threshold : ℕ
ocr_char_threshold = 50

abbrev pub ocr_failed_threshold : ℕ
ocr_failed_threshold = 10

-- `text or ""`
abbrev pub or_empty : Option Text → Text
or_empty none = []
or_empty (some t) = t

-- `enumerate(pages, start=i)`
unfoldable pub numbered : ℕ → List Text → Pages
numbered i [] = []
numbered i (t ∷ ts) = (i, t) ∷ numbered (i + 1) ts

abbrev unless_raised : Result ToolError (Option Text) → Text
unless_raised (returned t) = or_empty t
unless_raised (raised e) = []

abbrev pub read_with :
    Option (File → Result ToolError (List (Option Text)))
    → (File → Result ToolError (List (Result ToolError (Option Text))))
    → File
    → Result ToolError Pages
read_with (some pdfplumber) pypdf file =
    pdfplumber file >>= λ ts. returned (numbered 1 (map or_empty ts))
read_with none pypdf file = pypdf file >>= λ ts. returned (numbered 1 (map unless_raised ts))

abbrev pub nth : List ℕ → ℕ → Option ℕ
nth [] i = none
nth (p ∷ ps) zero = some p
nth (p ∷ ps) (suc i) = nth ps i

abbrev pub under : Option ℕ → Text → Pages → Pages
under none t pages = pages
under (some p) t pages = (p, t) ∷ pages

-- The comprehension that gives the pages of the partial PDF their original numbers.
unfoldable pub map_back : List ℕ → Pages → Pages
map_back flagged [] = []
map_back flagged ((i, t) ∷ pages) = under (nth flagged (i - 1)) t (map_back flagged pages)

-- `pages[p] = text` for a page that is there.
unfoldable pub set_page : ℕ → Text → Pages → Pages
set_page p t [] = []
set_page p t ((q, old) ∷ pages) = (q, if q == p then t else old) ∷ set_page p t pages

module _ (is_space : ℕ → Bool) (tools : Tools) where
  unfoldable pub extract_pages : File → Result ToolError Pages
  unfolding numbered
  extract_pages file = read_with tools.pdfplumber tools.pypdf file

  abbrev as_pipeline_error : Result Text Bytes → Result ToolError Bytes
  as_pipeline_error (returned b) = returned b
  as_pipeline_error (raised t) = raised (pipeline_error (codes "ocrmypdf failed: " ++ take 300 t))

  abbrev pub ocr_with : Option (Bytes → Result Text Bytes) → File → List ℕ → Result ToolError Pages
  ocr_with none file flagged = raised (pipeline_error (codes "ocrmypdf not available on this host"))
  ocr_with (some ocrmypdf) file flagged = tools.sub_pdf file flagged >>= λ sub.
      as_pipeline_error (ocrmypdf sub) >>= λ out.
      extract_pages (some out) >>= λ pages. returned (map_back flagged pages)

  unfoldable pub ocr_subpdf : File → List ℕ → Result ToolError Pages
  unfolding extract_pages map_back
  ocr_subpdf file flagged = ocr_with tools.ocrmypdf file flagged

  -- `len((text or "").strip()) < OCR_CHAR_THRESHOLD`
  abbrev pub is_flagged : ℕ × Text → Bool
  is_flagged (p, t) = ltb (length (strip is_space t)) ocr_char_threshold

  abbrev pub flagged_pages : Pages → List ℕ
  flagged_pages pages = map (λ (p : ℕ × Text). p.0) (keep is_flagged pages)

  -- The state of the loop: the pages, and those for which OCR failed.
  abbrev pub ocr_text : Pages → ℕ → Text
  ocr_text ocr p = strip is_space (or_empty (page_text ocr p))

  abbrev pub ocr_round : Pages → ℕ → Pages × List ℕ → Pages × List ℕ
  ocr_round ocr p (pages, bad) =
      if ltb (length (ocr_text ocr p)) ocr_failed_threshold
      then (pages, if any (λ q. q == p) bad then bad else bad ++ p ∷ [])
      else (set_page p (ocr_text ocr p) pages, bad)

  unfoldable pub ocr_loop : Pages → List ℕ → Pages × List ℕ → Pages × List ℕ
  unfolding set_page strip page_text
  ocr_loop ocr [] state = state
  ocr_loop ocr (p ∷ ps) state = ocr_loop ocr ps (ocr_round ocr p state)

  abbrev page_map : ℕ → List ℕ → Pages × List ℕ → PageMap
  page_map count flagged (pages, bad) = record {
    pages = pages;
    page_count = count;
    ocr_flagged = flagged;
    ocr_failed = bad;
  }

  abbrev pub merge_ocr : Pages → List ℕ → Result ToolError Pages → Result ToolError PageMap
  merge_ocr pages flagged (returned ocr) =
      returned (page_map (length pages) flagged (ocr_loop ocr flagged (pages, [])))
  merge_ocr pages flagged (raised (pipeline_error t)) =
      returned (page_map (length pages) flagged (ocr_loop [] flagged (pages, flagged)))
  merge_ocr pages flagged (raised (other_error t)) = raised (other_error t)

  abbrev pub with_ocr : File → Pages → List ℕ → Result ToolError PageMap
  with_ocr file pages [] = returned (page_map (length pages) [] (pages, []))
  with_ocr file pages (p ∷ ps) = merge_ocr pages (p ∷ ps) (ocr_subpdf file (p ∷ ps))

  -- `ocr_enabled` is left at its default, true.
  unfoldable pub build_page_map : File → Result ToolError PageMap
  unfolding ocr_subpdf ocr_loop
  build_page_map file = extract_pages file >>= λ pages. with_ocr file pages (flagged_pages pages)

abbrev pub after_conversion : Conversion → Result ToolError File
after_conversion timed_out = raised (other_error (codes "timed out after 900 seconds"))
after_conversion (exit_failed t) =
    raised (pipeline_error (codes "LibreOffice conversion failed: " ++ take 300 t))
after_conversion no_output = raised (pipeline_error (codes "LibreOffice produced no output PDF"))
after_conversion (converted b) = returned (some b)

abbrev pub convert_with : Bool → Option (File → Conversion) → File → Result ToolError File
convert_with lock none file =
    raised (pipeline_error (codes "LibreOffice is not available on this host"))
convert_with true (some soffice) file = after_conversion (soffice file)
convert_with false (some soffice) file =
    raised (pipeline_error (codes "could not acquire libreoffice_conversion lock"))

-- With a session, as the runner calls it: the lock is asked for, and released when the tool is done.
unfoldable pub convert_docx_to_pdf : Tools → File → Result ToolError File
convert_docx_to_pdf tools file = convert_with tools.libreoffice_lock tools.soffice file
