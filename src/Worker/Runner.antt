-- ===== src/Worker/Runner.antt =====
-- app/pipeline/runner.py: `run_extraction`. A run assigns to two rows, the run's and the solicitation's;
-- what it raised leaves those assignments in the session, which the worker commits. The tools, the
-- model client, the clock and the ids of new rows come from outside, and the headings that cut the
-- pages into segments.
use rfp_shred.Prelude.{
  Bool, List, Option, String, Text, [], any, codes, false, if◌then◌else◌, length, ltb, map, none,
  not, some, sort_by, str_eq, true, ℕ, ◌&&◌, ◌*◌, ◌++◌, ◌+◌, ◌==◌, ◌||◌, ◌∷◌,
}
use rfp_shred.Results.{Result, returned, raised}
use rfp_shred.Models.{Session, Rfp, RfpState, Stage, InferenceLog, ExtractionRun}
use rfp_shred.Pipeline.Items.{Pages, Chunk, CallRecord, MineResult}
use rfp_shred.Pipeline.Mine.Calls.{Client}
use rfp_shred.Pipeline.Mine.Process.{Outcome, mine_chunks}
use rfp_shred.Pipeline.TextUtils.Normalize.{Unicode, strip}
use rfp_shred.Pipeline.TextUtils.Containment.{Block}
use rfp_shred.Pipeline.Chunking.{
  max_chunks, overlap_chars, target_chars, build_chunks, Span, Segment,
}
use rfp_shred.Pipeline.Audit.{audit_items, locate_source_pages, Reason}
use rfp_shred.Intake.Files.{
  docx_entry, pdf_entry, Bytes, Failure, ZipInfo, ZipEntry, EntryKind, validate_zip_bytes,
}
use rfp_shred.Intake.Pagemap.{
  other_error, build_page_map, convert_docx_to_pdf, pipeline_error, ToolError, Tools, PageMap, File,
}
use rfp_shred.Queue.Recovery.{set_run, set_rfp_state}
use rfp_shred.Pipeline.Filter.{split_requirements}
use rfp_shred.Pipeline.Transform.{PersistOutcome, persist_mine_result}

abbrev pub chunk_cap_message : String
chunk_cap_message =
    "Document exceeded maximum chunk count (60). This RFP may be too long or too dense for the current chunking strategy. Try splitting the document or contact support."

-- What ends a run early: `ExtractionFailed` with its cause, or any other exception with its text. Of a
-- cause the numbers and the texts of other exceptions that are formatted into it are left out.
pub data RunError : Type 0 where
  extraction_failed crashed : Text → RunError

-- The texts that the segments are cut from, with the pages' places in them.
pub record Segmented : Type 0 where
  pub spans : List Span
  pub full : Text
  pub segments : List Segment

pub record Outside : Type 0 where
  pub unicode : Unicode
  pub matching_blocks : Text → Text → List Block
  pub tools : Tools
  pub client : Client
  -- what a path holds, and its suffix in lower case
  pub file : String → File
  pub suffix : String → String
  pub open_zip : Bytes → Option (List ZipInfo)
  -- whether a file can be written under the name of an entry, or the error's text
  pub write_entry : Text → Option Text
  pub merge_pdfs : List File → Result Text Bytes
  pub segment : Pages → Segmented
  pub now : Stage → ℕ
  pub new_output : ℕ → ℕ
  pub new_row : ℕ → ℕ
  pub describe : Reason → Text
  pub describe_failure : Failure → Text

-- The settings that a run reads. A price is whole millionths of a dollar for a million tokens, so that a
-- cost is whole units of a millionth of a millionth.
pub record RunSettings : Type 0 where
  pub max_zip_entries : ℕ
  pub max_upload_bytes : ℕ
  pub model_max_tokens : ℕ
  pub model_input_price_per_m : ℕ
  pub model_output_price_per_m : ℕ

unfoldable pub estimate_cost_usd : RunSettings → (tokens_in tokens_out : ℕ) → ℕ
estimate_cost_usd settings tokens_in tokens_out =
    tokens_in * settings.model_input_price_per_m + tokens_out * settings.model_output_price_per_m

-- `a <= b` of two strings.
unfoldable pub text_leb : Text → Text → Bool
text_leb [] b = true
text_leb (x ∷ a) [] = false
text_leb (x ∷ a) (y ∷ b) = let rest = text_leb a b in ltb x y || (x == y && rest)

-- The assignments of a stage: to the run's row and to the solicitation's.
abbrev pub enter : (now : ℕ) → Stage → RfpState → Rfp → ExtractionRun → Session → Session
enter now stage state rfp run s =
    set_rfp_state rfp.id state
      (set_run run.id (λ r. record r { stage = stage; heartbeat_at = now }) s)

abbrev pub set_page_count : ℕ → ℕ → Session → Session
set_page_count rfp_id count s = record s {
  rfps =
      map (λ (r : Rfp). if r.id == rfp_id then record r { page_count = some count } else r) s.rfps;
}

abbrev pub log_merge : Rfp → Session → Session
log_merge rfp s = record s {
  retention_log = s.retention_log ++ record { rfp_id = some rfp.id; action = "zip_merged" } ∷ [];
}

-- A tool's error as `run_extraction` passes it on.
abbrev pub as_failure : ToolError → RunError
as_failure (pipeline_error t) = extraction_failed t
as_failure (other_error t) = crashed t

abbrev pub from_tool : Result ToolError File → Result RunError File
from_tool (returned f) = returned f
from_tool (raised e) = raised (as_failure e)

abbrev pub and_file :
    Result RunError File → Result RunError (List File) → Result RunError (List File)
and_file (raised e) rest = raised e
and_file (returned f) (raised e) = raised e
and_file (returned f) (returned fs) = returned (f ∷ fs)

module _ (o : Outside) (settings : RunSettings) where
  abbrev pub entry_before : ZipEntry → ZipEntry → Bool
  entry_before e f = text_leb (o.unicode.lower e.name) (o.unicode.lower f.name)

  abbrev pub convert_entry : EntryKind → File → Result RunError File
  convert_entry pdf_entry src = returned src
  convert_entry docx_entry src = from_tool (convert_docx_to_pdf o.tools src)

  abbrev pub written : Option Text → ZipEntry → Result RunError File
  written (some error) e = raised (crashed error)
  written none e = convert_entry e.kind (some e.data_bytes)

  -- The loop over the entries.
  unfoldable pub entry_files : List ZipEntry → Result RunError (List File)
  unfolding convert_docx_to_pdf
  entry_files [] = returned []
  entry_files (e ∷ es) = and_file (written (o.write_entry e.name) e) (entry_files es)

  abbrev pub logged : Result Text Bytes → Rfp → Session → Result RunError File × Session
  logged (raised error) rfp s = (raised (crashed error), s)
  logged (returned merged) rfp s = (returned (some merged), log_merge rfp s)

  abbrev pub merge : Result RunError (List File) → Rfp → Session → Result RunError File × Session
  merge (raised e) rfp s = (raised e, s)
  merge (returned files) rfp s = logged (o.merge_pdfs files) rfp s

  abbrev pub merge_entries :
      Result Failure (List ZipEntry) → Rfp → Session → Result RunError File × Session
  merge_entries (raised e) rfp s = (raised (crashed (o.describe_failure e)), s)
  merge_entries (returned entries) rfp s = merge (entry_files (sort_by entry_before entries)) rfp s

  abbrev pub merge_zip : File → Rfp → Session → Result RunError File × Session
  merge_zip none rfp s = (raised (crashed (codes "No such file or directory")), s)
  merge_zip (some bytes) rfp s =
      merge_entries
        (validate_zip_bytes o.unicode o.open_zip settings.max_zip_entries settings.max_upload_bytes
          bytes)
        rfp s

  -- `rfp.stored_path or ""`
  abbrev pub stored : Rfp → String
  stored rfp = path_or rfp.stored_path
    where
      path_or : Option String → String
      path_or none = ""
      path_or (some p) = p

  unfoldable pub prepare_processing_pdf : Rfp → Session → Result RunError File × Session
  unfolding entry_files validate_zip_bytes convert_docx_to_pdf
  prepare_processing_pdf rfp s =
      if str_eq (o.suffix (stored rfp)) ".pdf"
      then (returned (o.file (stored rfp)), s)
      else if str_eq (o.suffix (stored rfp)) ".docx"
      then (from_tool (convert_docx_to_pdf o.tools (o.file (stored rfp))), s)
      else if str_eq (o.suffix (stored rfp)) ".zip"
      then merge_zip (o.file (stored rfp)) rfp s
      else (raised (extraction_failed (codes "unsupported stored file type: ")), s)

  -- `not page_map.pages or not any(t.strip() for t in page_map.pages.values())`
  abbrev pub has_no_text : Pages → Bool
  has_no_text pages =
      not (any (λ (p : ℕ × Text). ltb 0 (length (strip o.unicode.is_space p.1))) pages)

  abbrev pub finish_ready : Rfp → ExtractionRun → Session → Session
  finish_ready rfp run s = enter (o.now Stage.ready) Stage.ready RfpState.ready rfp run s

  -- The rows of the loop over `mine.calls`. The time of a row is its column's default.
  unfoldable pub call_logs : Rfp → List CallRecord → List InferenceLog
  unfolding estimate_cost_usd
  call_logs rfp [] = []
  call_logs rfp (c ∷ cs) =
      record {
        account_id = some rfp.account_id;
        rfp_id = some rfp.id;
        tokens_in = c.tokens_in;
        tokens_out = c.tokens_out;
        estimated_cost_usd = estimate_cost_usd settings c.tokens_in c.tokens_out;
        created_at = o.now Stage.extracting;
      }
      ∷ call_logs rfp cs

  abbrev pub log_calls : Rfp → MineResult → Session → Session
  log_calls rfp mine s = record s { inference_log = s.inference_log ++ call_logs rfp mine.calls }

  -- The auditing stage.
  unfoldable pub audit_stage :
      Rfp → ExtractionRun → Pages → MineResult → Session → PersistOutcome × Session
  unfolding split_requirements locate_source_pages audit_items persist_mine_result
  audit_stage rfp run pages mine s =
      let filtered = split_requirements mine.items in
      let binding = locate_source_pages o.unicode o.matching_blocks filtered.requirements pages in
      let audit = audit_items o.unicode o.matching_blocks binding pages in
      persist_mine_result o.unicode o.new_output o.new_row o.describe rfp.id run.id mine audit
        filtered (enter (o.now Stage.auditing) Stage.auditing RfpState.auditing rfp run s)

  abbrev pub publish :
      Rfp → ExtractionRun → Pages → MineResult → Session → Result RunError ℕ × Session
  publish rfp run pages mine s =
      let (outcome, s') = audit_stage rfp run pages mine (log_calls rfp mine s) in
      (returned outcome.requirements, finish_ready rfp run s')

  abbrev pub on_mined :
      Rfp → ExtractionRun → Pages → Outcome → Session → Result RunError ℕ × Session
  on_mined rfp run pages (Outcome.failed m) s =
      (raised (extraction_failed (codes "model provider error: ")), s)
  on_mined rfp run pages (Outcome.finished m) s =
      if ltb 0 m.result.failed_chunks
      then (raised (extraction_failed (codes "model extraction was incomplete: ")), s)
      else publish rfp run pages m.result s

  abbrev pub on_chunks :
      Rfp → ExtractionRun → Pages → Option (List Chunk) → Session → Result RunError ℕ × Session
  on_chunks rfp run pages none s = (raised (extraction_failed (codes chunk_cap_message)), s)
  on_chunks rfp run pages (some chunks) s =
      on_mined rfp run pages (mine_chunks o.client o.unicode settings.model_max_tokens chunks) s

  -- From the extracting stage on.
  unfoldable pub extract : Rfp → ExtractionRun → Pages → Session → Result RunError ℕ × Session
  unfolding mine_chunks build_chunks audit_stage call_logs
  extract rfp run pages s =
      let cut = o.segment pages in
      on_chunks rfp run pages
        (build_chunks cut.spans cut.full target_chars overlap_chars max_chunks cut.segments)
        (enter (o.now Stage.extracting) Stage.extracting RfpState.extracting rfp run s)

  abbrev pub on_pages :
      Rfp → ExtractionRun → Result ToolError PageMap → Session → Result RunError ℕ × Session
  on_pages rfp run (raised (pipeline_error t)) s = (raised (extraction_failed t), s)
  on_pages rfp run (raised (other_error t)) s =
      (raised (extraction_failed (codes "page-map build failed: " ++ t)), s)
  on_pages rfp run (returned m) s =
      let counted = set_page_count rfp.id m.page_count s in
      if has_no_text m.pages
      then (returned 0, finish_ready rfp run counted)
      else extract rfp run m.pages counted

  abbrev pub on_prepared :
      Rfp → ExtractionRun → Result RunError File × Session → Result RunError ℕ × Session
  on_prepared rfp run (raised e, s) = (raised e, s)
  on_prepared rfp run (returned pdf, s) =
      on_pages rfp run (build_page_map o.unicode.is_space o.tools pdf) s

  unfoldable pub run_extraction : Rfp → ExtractionRun → Session → Result RunError ℕ × Session
  unfolding prepare_processing_pdf extract build_page_map
  run_extraction rfp run s = on_prepared rfp run (
      prepare_processing_pdf rfp
        (enter (o.now Stage.reading) Stage.reading RfpState.reading rfp run s))
