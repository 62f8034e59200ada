-- ===== src/Worker/Published.antt =====
-- app/pipeline/runner.py: how a run ends, and what a run that raises leaves of the tables of the matrix.
use rfp_shred.Prelude.{
  ==_iff, All, Bool-cases, List, Option, Text, [], arith, if◌then◌else◌, inl, inr, ltb, map, none,
  refl, some, sort_by, str_eq, ℕ, ◌==◌, ◌∙◌, ◌∷◌, ◌≡◌, ◌≢◌, ◌⊎◌,
}
use rfp_shred.Results.{Result, returned, raised}
use rfp_shred.Models.{Session, Rfp, RfpState, Stage, ExtractionRun}
use rfp_shred.Intake.Files.{validate_zip_bytes, ZipEntry, Bytes, Failure}
use rfp_shred.Intake.Pagemap.{other_error, build_page_map, pipeline_error, PageMap, File, ToolError}
use rfp_shred.Pipeline.Mine.Process.{mine_chunks, Outcome}
use rfp_shred.Worker.Runner.{
  log_calls, audit_stage, entry_before, entry_files, merge_entries, set_page_count, has_no_text,
  merge, enter, on_chunks, logged, on_mined, on_prepared, on_pages, stored, merge_zip,
  run_extraction, extract, prepare_processing_pdf, finish_ready, Outside, RunSettings, RunError,
}
use rfp_shred.Pipeline.Items.{Chunk, Pages}
use rfp_shred.Pipeline.Chunking.{max_chunks, overlap_chars, target_chars, build_chunks}

-- The tables that a run publishes to are the same.
abbrev pub IsUnpublished : Session → Session → Type 0
IsUnpublished s s' =
    (s'.requirements ≡ s.requirements)
    × (s'.filtered_lines ≡ s.filtered_lines)
    × (s'.audit_drops ≡ s.audit_drops)
    × (s'.raw_outputs ≡ s.raw_outputs)
    × (s'.inference_log ≡ s.inference_log)

abbrev pub unpublished : (s : Session) → IsUnpublished s s
unpublished s = (refl, refl, refl, refl, refl)

-- The run, or the solicitation, of that id is at the stage, or in the state.
abbrev pub RunIs : ℕ → Stage → Session → Type 0
RunIs i stage s = All (λ (r : ExtractionRun). (r.id ≢ i) ⊎ (r.stage ≡ stage)) s.runs

abbrev pub RfpIs : ℕ → RfpState → Session → Type 0
RfpIs i state s = All (λ (r : Rfp). (r.id ≢ i) ⊎ (r.state ≡ state)) s.rfps

pub set_run-RunIs :
    (i : ℕ) (stage : Stage) (f : ExtractionRun → ExtractionRun) (runs : List ExtractionRun)
    → ((r : ExtractionRun) → ((f r).stage ≡ stage))
    → All
        (λ (r : ExtractionRun). (r.id ≢ i) ⊎ (r.stage ≡ stage))
        (map (λ (r : ExtractionRun). if r.id == i then f r else r) runs)
set_run-RunIs i stage f [] at_stage = tt
set_run-RunIs i stage f (r ∷ rs) at_stage = elim (Bool-cases (r.id == i)) [
  | inl e ↦ rw e (inr (at_stage r), set_run-RunIs i stage f rs at_stage)
  | inr e ↦ rw e (inl (λ same. ground (arith, ==_iff r.id i)), set_run-RunIs i stage f rs at_stage)
]

pub set_rfp_state-RfpIs :
    (i : ℕ) (state : RfpState) (rfps : List Rfp)
    → All
        (λ (r : Rfp). (r.id ≢ i) ⊎ (r.state ≡ state))
        (map (λ (r : Rfp). if r.id == i then record r { state = state } else r) rfps)
set_rfp_state-RfpIs i state [] = tt
set_rfp_state-RfpIs i state (r ∷ rs) = elim (Bool-cases (r.id == i)) [
  | inl e ↦ rw e (inr refl, set_rfp_state-RfpIs i state rs)
  | inr e ↦ rw e (inl (λ same. ground (arith, ==_iff r.id i)), set_rfp_state-RfpIs i state rs)
]

-- How a run may end: it raised and published nothing, or its rows say that it is ready.
abbrev pub Ends : Rfp → ExtractionRun → Session → Result RunError ℕ × Session → Type 0
Ends rfp run s (raised e, s') = IsUnpublished s s'
Ends rfp run s (returned n, s') = RunIs run.id Stage.ready s' × RfpIs rfp.id RfpState.ready s'

module _ (o : Outside) (settings : RunSettings) where
  finish_ready-Ends :
      (rfp : Rfp) (run : ExtractionRun) (n : ℕ) (s t : Session)
      → Ends rfp run s (returned n, finish_ready o settings rfp run t)
  finish_ready-Ends rfp run n s t = (
    set_run-RunIs run.id Stage.ready
        (λ r. record r { stage = Stage.ready; heartbeat_at = o.now Stage.ready }) t.runs
        (λ r. refl),
    set_rfp_state-RfpIs rfp.id RfpState.ready t.rfps,
  )

  merge_zip-IsUnpublished :
      (f : File) (rfp : Rfp) (s : Session) → IsUnpublished s (merge_zip o settings f rfp s).1
  merge_zip-IsUnpublished none rfp s = unpublished s
  merge_zip-IsUnpublished (some bytes) rfp s = for_entries (
      validate_zip_bytes o.unicode o.open_zip settings.max_zip_entries settings.max_upload_bytes
        bytes)
    where
      for_merged : (r : Result Text Bytes) → IsUnpublished s (logged o settings r rfp s).1
      for_merged (raised e) = unpublished s
      for_merged (returned b) = unpublished s

      for_files : (r : Result RunError (List File)) → IsUnpublished s (merge o settings r rfp s).1
      for_files (raised e) = unpublished s
      for_files (returned fs) = for_merged (o.merge_pdfs fs)

      for_entries :
          (r : Result Failure (List ZipEntry))
          → IsUnpublished s (merge_entries o settings r rfp s).1
      for_entries (raised e) = unpublished s
      for_entries (returned es) =
          for_files (entry_files o settings (sort_by (entry_before o settings) es))

  pub prepare_processing_pdf-IsUnpublished :
      (rfp : Rfp) (s : Session) → IsUnpublished s (prepare_processing_pdf o settings rfp s).1
  unfolding prepare_processing_pdf
  prepare_processing_pdf-IsUnpublished rfp s =
      let suffix = o.suffix (stored o settings rfp) in
      elim (Bool-cases (str_eq suffix ".pdf")) [
        | inl e ↦ rw e (unpublished s)
        | inr e ↦ elim (Bool-cases (str_eq suffix ".docx")) [
          | inl d ↦ rw (e, d) (unpublished s)
          | inr d ↦ elim (Bool-cases (str_eq suffix ".zip")) [
            | inl z ↦ rw (e, d, z) (merge_zip-IsUnpublished (o.file (stored o settings rfp)) rfp s)
            | inr z ↦ rw (e, d, z) (unpublished s)
          ]
        ]
      ]

  on_mined-Ends :
      (rfp : Rfp) (run : ExtractionRun) (pages : Pages) (m : Outcome) (s : Session)
      → Ends rfp run s (on_mined o settings rfp run pages m s)
  on_mined-Ends rfp run pages (Outcome.failed m) s = unpublished s
  on_mined-Ends rfp run pages (Outcome.finished m) s =
      elim (Bool-cases (ltb 0 m.result.failed_chunks)) [
        | inl bad ↦ rw bad (unpublished s)
        | inr fine ↦ rw fine (
            finish_ready-Ends rfp run
              (audit_stage o settings rfp run pages m.result
                (log_calls o settings rfp m.result s)).0.requirements
              s
              (audit_stage o settings rfp run pages m.result
                (log_calls o settings rfp m.result s)).1)
      ]

  extract-Ends :
      (rfp : Rfp) (run : ExtractionRun) (pages : Pages) (s : Session)
      → Ends rfp run s (extract o settings rfp run pages s)
  unfolding extract
  extract-Ends rfp run pages s =
      let cut = o.segment pages in
      for_chunks
        (build_chunks cut.spans cut.full target_chars overlap_chars max_chunks cut.segments)
    where
      for_chunks :
          (c : Option (List Chunk))
          → Ends rfp run s (
              on_chunks o settings rfp run pages c
                (enter (o.now Stage.extracting) Stage.extracting RfpState.extracting rfp run s))
      for_chunks none = unpublished s
      for_chunks (some chunks) =
          on_mined-Ends rfp run pages
            (mine_chunks o.client o.unicode settings.model_max_tokens chunks)
            (enter (o.now Stage.extracting) Stage.extracting RfpState.extracting rfp run s)

  on_pages-Ends :
      (rfp : Rfp) (run : ExtractionRun) (m : Result ToolError PageMap) (s : Session)
      → Ends rfp run s (on_pages o settings rfp run m s)
  on_pages-Ends rfp run (raised (pipeline_error t)) s = unpublished s
  on_pages-Ends rfp run (raised (other_error t)) s = unpublished s
  on_pages-Ends rfp run (returned m) s = elim (Bool-cases (has_no_text o settings m.pages)) [
    | inl blank ↦ rw blank (finish_ready-Ends rfp run 0 s (set_page_count rfp.id m.page_count s))
    | inr text ↦ rw text (extract-Ends rfp run m.pages (set_page_count rfp.id m.page_count s))
  ]

  pub run_extraction-Ends :
      (rfp : Rfp) (run : ExtractionRun) (s : Session)
      → Ends rfp run s (run_extraction o settings rfp run s)
  unfolding run_extraction
  run_extraction-Ends rfp run s =
      let start = enter (o.now Stage.reading) Stage.reading RfpState.reading rfp run s in
      for_prepared (prepare_processing_pdf o settings rfp start)
        (prepare_processing_pdf-IsUnpublished rfp start)
    where
      for_prepared :
          (p : Result RunError File × Session)
          → IsUnpublished s p.1
          → Ends rfp run s (on_prepared o settings rfp run p)
      for_prepared (raised e, t) kept = kept
      for_prepared (returned pdf, t) kept =
          onto (on_pages o settings rfp run (build_page_map o.unicode.is_space o.tools pdf) t)
            (on_pages-Ends rfp run (build_page_map o.unicode.is_space o.tools pdf) t)
        where
          onto : (r : Result RunError ℕ × Session) → Ends rfp run t r → Ends rfp run s r
          onto (raised e, u) (a, b, c, d, f) =
              (a ∙ kept.0, b ∙ kept.1, c ∙ kept.2, d ∙ kept.3, f ∙ kept.4)
          onto (returned n, u) ends = ends
