-- ===== src/Web/Restore.antt =====
-- app/web/routes_pages.py: the restoring of a line that was set aside, or that the audit dropped. The
-- decimal text of a number comes from outside. The index of the chunk of a restored item, which
-- nothing reads, is zero.
pub mod Cited
use rfp_shred.Prelude.{
  ==_iff, ==_refl, All, All-append, All-first, All-keep, All-keep_none, All-map, All-map_list,
  All-of_sort_by, All-sort_by, All-update_first, Bool, Bool-cases, IsSorted, List, Option,
  Option-cases, String, Text, [], all, any, any-append_last, any-append_left, ap, append-nil,
  append_assoc, arith, codes, drop, drop-append_le, drop-drop, drop-nil, eq_iff, false, false≢true,
  first, first-append_last, first-passes, first-update_first, fun_ext, if◌then◌else◌, inl, inr,
  insert_sorted, is_some, keep, keep-append, keep-cons, keep-onto, leb, leb→le, length,
  length-append, length-drop, length-keep-le, length-map, length-sort_by, length-take, le→leb, ltb,
  ltb→lt, lt→ltb, map, map-append, max, min, none, not, refl, reverse, reverse_onto, some, sort_by,
  sort_by-IsSorted, sort_by-perm, str_eq, str_eq_refl, subst, suc, sym, take, take-all,
  take-append-drop, true, update_first, zero, ℕ, ◌%◌, ◌&&◌, ◌*◌, ◌++◌, ◌+◌, ◌-◌, ◌/◌, ◌<◌, ◌==◌,
  ◌||◌, ◌↔◌, ◌∎, ◌∙◌, ◌∷◌, ◌≡◌, ◌≡⟨◌⟩◌, ◌≢◌, ◌≤◌, ◌⊎◌,
}
use rfp_shred.Results.{Result, returned, raised}
use rfp_shred.Models.{
  Session, Account, Rfp, Requirement, FilteredLine, AuditDrop, Correction, CorrectionType,
}
use rfp_shred.Pipeline.Items.{MinedItem, Pages}
use rfp_shred.Auth.Sessions.{responded, http_exception, Reply}
use rfp_shred.Intake.Service.{Disk}
use rfp_shred.Intake.Pagemap.{extract_pages, File, ToolError}
use rfp_shred.Worker.Runner.{prepare_processing_pdf, Outside, RunSettings, RunError}
use rfp_shred.Worker.Process.{newest_run}
use rfp_shred.Web.Matrices.{WebWorld, get_rfp, has_source}
use rfp_shred.Pipeline.Audit.{audit_items}

-- `_next_seq`
unfoldable pub next_seq : ℕ → List Requirement → ℕ
next_seq rfp_id [] = 1
next_seq rfp_id (r ∷ rs) =
    let rest = next_seq rfp_id rs in if r.rfp_id == rfp_id then max (r.seq + 1) rest else rest

module _ (w : WebWorld) (o : Outside) (settings : RunSettings) (str_nat : ℕ → Text)
    (new_row : ℕ) where
  abbrev pub restored_row : Rfp → (seq line_seq page : ℕ) → Text → Text → Requirement
  restored_row rfp seq line_seq page body excerpt = record {
    id = new_row;
    rfp_id = rfp.id;
    seq = seq;
    clause_id = codes "restored." ++ str_nat line_seq;
    section = codes "(restored)";
    page = page;
    body = body;
    excerpt = excerpt;
    response = [];
    verified_at = none;
    tags = [];
    model_output_id = none;
  }

  abbrev pub reinclusion : Account → Rfp → CorrectionType → Correction
  reinclusion account rfp kind = record {
    account_id = some account.id;
    rfp_id = rfp.id;
    requirement_id = none;
    correction_type = kind;
  }

  abbrev pub add_row : Requirement → Session → Session
  add_row row s = record s { requirements = s.requirements ++ row ∷ [] }

  abbrev pub mark_line : FilteredLine → Account → Rfp → Session → Session
  mark_line line account rfp s = record s {
    filtered_lines =
        map (λ (l : FilteredLine). if l.id == line.id then record l { re_included = true } else l)
          s.filtered_lines;
    corrections = s.corrections ++ reinclusion account rfp CorrectionType.reinclude_filtered ∷ [];
  }

  abbrev pub on_line : Account → Rfp → Option FilteredLine → Session → Reply × Session
  on_line account rfp none s = (http_exception 404, s)
  on_line account rfp (some line) s =
      if not (line.rfp_id == rfp.id)
      then (http_exception 404, s)
      else if line.re_included
      then (responded 303, s)
      else (
        responded 303,
        mark_line line account rfp (
            add_row
              (restored_row rfp (next_seq rfp.id s.requirements) line.seq line.page line.full_text
                (take 200 line.full_text))
              s),
      )

  abbrev find_line : Option ℕ → Session → Option FilteredLine
  find_line none s = none
  find_line (some i) s = first (λ (l : FilteredLine). l.id == i) s.filtered_lines

  abbrev pub line_of_rfp : Account → String → Option Rfp → Session → Reply × Session
  line_of_rfp account line_id none s = (http_exception 404, s)
  line_of_rfp account line_id (some rfp) s =
      on_line account rfp (find_line (w.parse_uuid line_id) s) s

  unfoldable pub restore_filtered : Account → String → String → Session → Reply × Session
  unfolding get_rfp next_seq
  restore_filtered account rfp_id line_id s =
      line_of_rfp account line_id (get_rfp w s rfp_id account) s

  abbrev pub pages_or_none : Result ToolError Pages → Option Pages
  pages_or_none (raised e) = none
  pages_or_none (returned pages) = some pages

  abbrev pub read_prepared : Result RunError File × Session → Option Pages × Session
  read_prepared (raised e, s) = (none, s)
  read_prepared (returned pdf, s) =
      (pages_or_none (extract_pages o.unicode.is_space o.tools pdf), s)

  -- `_load_pages`: without OCR the page map has the pages as they are read.
  unfoldable pub load_pages : Disk → Rfp → Session → Option Pages × Session
  unfolding prepare_processing_pdf extract_pages
  load_pages disk rfp s =
      if has_source disk rfp.stored_path && is_some (newest_run rfp.id s)
      then read_prepared (prepare_processing_pdf o settings rfp s)
      else (none, s)

  abbrev pub candidate : AuditDrop → Text → MinedItem
  candidate drop excerpt = record {
    clause_id = codes "restored." ++ str_nat drop.seq;
    section = codes "(restored)";
    page = drop.page;
    text = drop.text;
    excerpt = excerpt;
    is_requirement = true;
    chunk_index = 0;
    doc_order = 0;
  }

  abbrev pub passes_again : Pages → AuditDrop → Text → Bool
  passes_again pages drop excerpt =
      ltb 0 (
        length (audit_items o.unicode o.matching_blocks (candidate drop excerpt ∷ []) pages).passed)

  -- The first excerpt with which the drop passes the audit: the stored one, or the start of its text.
  abbrev pub passing_excerpt : Option Pages → AuditDrop → Option Text
  passing_excerpt none drop = none
  passing_excerpt (some pages) drop =
      first (passes_again pages drop) (drop.excerpt ∷ take 200 drop.text ∷ [])

  abbrev pub reason_after : Option Pages → Text
  reason_after none = codes "re-audit unavailable: source file no longer retained"
  reason_after (some pages) = codes "re-audit on re-include failed"

  abbrev pub mark_drop : Bool → Option Pages → AuditDrop → Account → Rfp → Session → Session
  mark_drop restored pages drop account rfp s = record s {
    audit_drops =
        map
          (λ (d : AuditDrop).
            if d.id == drop.id
            then record d {
              re_included = true;
              audit_failure_reason =
                  if restored then d.audit_failure_reason else reason_after pages;
            }
            else d)
          s.audit_drops;
    corrections = s.corrections ++ reinclusion account rfp CorrectionType.reinclude_audit ∷ [];
  }

  abbrev pub with_excerpt :
      Option Text → Option Pages → AuditDrop → Account → Rfp → Session → Session
  with_excerpt none pages drop account rfp s = mark_drop false pages drop account rfp s
  with_excerpt (some excerpt) pages drop account rfp s = mark_drop true pages drop account rfp (
      add_row
        (restored_row rfp (next_seq rfp.id s.requirements) drop.seq drop.page drop.text excerpt) s)

  abbrev pub reaudit : AuditDrop → Account → Rfp → Option Pages × Session → Session
  reaudit drop account rfp (pages, s) =
      with_excerpt (passing_excerpt pages drop) pages drop account rfp s

  abbrev pub on_drop : Disk → Account → Rfp → Option AuditDrop → Session → Reply × Session
  on_drop disk account rfp none s = (http_exception 404, s)
  on_drop disk account rfp (some drop) s =
      if not (drop.rfp_id == rfp.id)
      then (http_exception 404, s)
      else if drop.re_included
      then (responded 303, s)
      else (responded 303, reaudit drop account rfp (load_pages disk rfp s))

  abbrev pub find_drop : Option ℕ → Session → Option AuditDrop
  find_drop none s = none
  find_drop (some i) s = first (λ (d : AuditDrop). d.id == i) s.audit_drops

  abbrev pub drop_of_rfp : Disk → Account → String → Option Rfp → Session → Reply × Session
  drop_of_rfp disk account line_id none s = (http_exception 404, s)
  drop_of_rfp disk account line_id (some rfp) s =
      on_drop disk account rfp (find_drop (w.parse_uuid line_id) s) s

  unfoldable pub restore_audit_drop : Disk → Account → String → String → Session → Reply × Session
  unfolding get_rfp next_seq load_pages audit_items
  restore_audit_drop disk account rfp_id line_id s =
      drop_of_rfp disk account line_id (get_rfp w s rfp_id account) s
