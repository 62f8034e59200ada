-- ===== src/Intake/Service.antt =====
-- app/web/intake_service.py: `process_upload`. The files are a disk, a list of paths; the parser of
-- encrypted PDF files, the hash and the clock come from outside.
use rfp_shred.Prelude.{
  Bool, List, Option, String, [], any, false, if◌then◌else◌, is_some, keep, leb, length, ltb, map,
  none, not, some, sort_by, str_eq, true, ℕ, ◌&&◌, ◌++◌, ◌+◌, ◌==◌, ◌∷◌,
}
use rfp_shred.Results.{Result, returned, raised}
use rfp_shred.Models.{
  AuditDrop, Stage, Origin, FilteredLine, Account, Requirement, RfpState, Rfp, Session,
}
use rfp_shred.Pipeline.TextUtils.Normalize.{Unicode}
use rfp_shred.Intake.Files.{
  PypdfRead, probe_encrypted_pdf, PikepdfOpen, zip, docx, pdf, sniff_type, rejection, ZipEntry,
  ZipInfo, validate_zip_bytes, Bytes, FileType, Failure,
}
use rfp_shred.Queue.{priority_for_new_job, enqueue}

-- `FILES_DIR`: the paths that exist.
abbrev pub Disk : Type 0
Disk = List String

abbrev pub exists : String → Disk → Bool
exists path = any (str_eq path)

abbrev pub unlink : String → Disk → Disk
unlink path = keep (λ p. not (str_eq path p))

-- The settings that the intake reads.
pub record Settings : Type 0 where
  pub max_upload_bytes : ℕ
  pub max_zip_entries : ℕ
  pub monthly_inference_cap_usd : ℕ

-- What the intake asks the outside for. `tmp_path` and `stored_path` are the paths with
-- their fresh names, the latter with the type as its suffix.
pub record World : Type 0 where
  pub unicode : Unicode
  pub open_zip : Bytes → Option (List ZipInfo)
  pub pikepdf : Bytes → Option PikepdfOpen
  pub pypdf : Bytes → PypdfRead
  pub content_sha256 : Bytes → String
  pub tmp_path : String
  pub stored_path : FileType → String
  pub now : ℕ
  pub month_start : ℕ
  pub new_rfp : ℕ
  pub new_run : ℕ
  pub new_job : ℕ
  pub new_row : ℕ → ℕ

-- `select(Rfp)` of `process_upload`.
abbrev pub is_prior : ℕ → String → Rfp → Bool
is_prior account_id digest r =
    r.account_id == account_id && has_hash r.content_hash && is_some r.unlocked_at
  where
    has_hash : Option String → Bool
    has_hash none = false
    has_hash (some h) = str_eq h digest

abbrev pub newest_first : Rfp → Rfp → Bool
newest_first r t = leb t.created_at r.created_at

abbrev pub head_of : List Rfp → Option Rfp
head_of [] = none
head_of (r ∷ rs) = some r

abbrev pub prior_of : ℕ → String → List Rfp → Option Rfp
prior_of account_id digest rfps =
    head_of (sort_by newest_first (keep (is_prior account_id digest) rfps))

abbrev pub inherited : Option Rfp → Option ℕ
inherited none = none
inherited (some r) = r.unlocked_at

abbrev pub is_ready : RfpState → Bool
is_ready RfpState.ready = true
is_ready _ = false

-- `_clone_matrix_rows`. `n` is the number of the row among those that are added.
unfoldable pub clone_requirements : (ℕ → ℕ) → ℕ → ℕ → List Requirement → List Requirement
clone_requirements new_row rfp_id n [] = []
clone_requirements new_row rfp_id n (row ∷ rows) =
    record row {
      id = new_row n;
      rfp_id = rfp_id;
      response = [];
      verified_at = none;
      model_output_id = none;
    }
    ∷ clone_requirements new_row rfp_id (n + 1) rows

abbrev pub by_seq : Requirement → Requirement → Bool
by_seq r t = leb r.seq t.seq

unfoldable pub clone_matrix_rows : (ℕ → ℕ) → (prior_id new_id : ℕ) → Session → Session
unfolding clone_requirements
clone_matrix_rows new_row prior_id new_id s = record s {
  requirements =
      s.requirements
      ++ clone_requirements new_row new_id 0
          (sort_by by_seq (keep (λ (r : Requirement). r.rfp_id == prior_id) s.requirements));
  filtered_lines =
      s.filtered_lines
      ++ map
          (λ (l : FilteredLine). record l {
            id = new_row l.seq;
            rfp_id = new_id;
            re_included = false;
          })
          (keep (λ (l : FilteredLine). l.rfp_id == prior_id) s.filtered_lines);
  audit_drops =
      s.audit_drops
      ++ map
          (λ (d : AuditDrop). record d { id = new_row d.seq; rfp_id = new_id; re_included = false })
          (keep (λ (d : AuditDrop). d.rfp_id == prior_id) s.audit_drops);
}

abbrev unless : Option Failure → Result Failure (List ZipEntry)
unless none = returned []
unless (some e) = raised e

module _ (w : World) (settings : Settings) where
  -- The validation between the writing of the temporary file and the query.
  abbrev pub validate : FileType → Bytes → Result Failure (List ZipEntry)
  validate pdf bytes = unless (probe_encrypted_pdf (w.pikepdf bytes) (w.pypdf bytes))
  validate docx bytes = returned []
  validate zip bytes =
      validate_zip_bytes w.unicode w.open_zip settings.max_zip_entries settings.max_upload_bytes
        bytes

  abbrev pub new_rfp : Account → FileType → Bytes → Bool → Option Rfp → Rfp
  new_rfp account kind bytes retain_source prior = record {
    id = w.new_rfp;
    account_id = account.id;
    stored_path = some (w.stored_path kind);
    content_hash = some (w.content_sha256 bytes);
    state = RfpState.received;
    retain_source = retain_source;
    unlocked_at = inherited prior;
    solicitation_no = none;
    due_at = none;
    page_count = none;
    origin = Origin.user;
    created_at = w.now;
  }

  abbrev pub start_run : Rfp → Session → Session
  start_run rfp s =
      let s' : Session = record s {
        runs =
            s.runs
            ++ record {
              id = w.new_run;
              rfp_id = rfp.id;
              stage = Stage.reading;
              heartbeat_at = w.now;
              attempt = 1;
              error = none;
              created_at = w.now;
            }
              ∷ [];
      } in
      enqueue w.now w.new_job (some rfp.id)
        (priority_for_new_job w.month_start rfp.account_id Origin.user
          settings.monthly_inference_cap_usd s')
        s'

  abbrev pub add_rfp : Rfp → Session → Session
  add_rfp rfp s = record s { rfps = s.rfps ++ rfp ∷ [] }

  abbrev pub clone_ready : Rfp → Rfp → Session → Rfp × Session
  clone_ready prior rfp s =
      let ready : Rfp = record rfp { state = RfpState.ready } in
      (ready, clone_matrix_rows w.new_row prior.id rfp.id (add_rfp ready s))

  abbrev pub queue_run : Rfp → Session → Rfp × Session
  queue_run rfp s = (rfp, start_run rfp (add_rfp rfp s))

  -- What is done with the new row.
  abbrev pub register : Option Rfp → Rfp → Session → Rfp × Session
  register none rfp s = queue_run rfp s
  register (some prior) rfp s =
      if is_ready prior.state then clone_ready prior rfp s else queue_run rfp s

  -- The `try` block, on a disk that has the temporary file.
  abbrev pub admit :
      Account
      → FileType
      → Bytes
      → Bool
      → Result Failure (List ZipEntry)
      → Disk
      → Session
      → Result Failure Rfp × Disk × Session
  admit account kind bytes retain_source (raised e) disk s = (raised e, disk, s)
  admit account kind bytes retain_source (returned entries) disk s =
      let prior = prior_of account.id (w.content_sha256 bytes) s.rfps in
      let (rfp, s') = register prior (new_rfp account kind bytes retain_source prior) s in
      (returned rfp, unlink w.tmp_path disk ++ w.stored_path kind ∷ [], s')

  -- The `finally` block.
  abbrev pub finally_unlink :
      Result Failure Rfp × Disk × Session → Result Failure Rfp × Disk × Session
  finally_unlink (r, disk, s) = (r, unlink w.tmp_path disk, s)

  abbrev pub accept :
      Account
      → Bytes
      → Bool
      → Option FileType
      → Disk
      → Session
      → Result Failure Rfp × Disk × Session
  accept account bytes retain_source none disk s =
      (raised (rejection 415 "Unsupported file type"), disk, s)
  accept account bytes retain_source (some kind) disk s =
      finally_unlink
        (admit account kind bytes retain_source (validate kind bytes) (disk ++ w.tmp_path ∷ []) s)

  unfoldable pub process_upload :
      Account → Bytes → Bool → Disk → Session → Result Failure Rfp × Disk × Session
  unfolding clone_matrix_rows probe_encrypted_pdf validate_zip_bytes sniff_type enqueue
      priority_for_new_job
  process_upload account bytes retain_source disk s =
      if ltb settings.max_upload_bytes (length bytes)
      then (raised (rejection 413 "File exceeds the maximum upload size"), disk, s)
      else accept account bytes retain_source (sniff_type w.open_zip bytes) disk s
