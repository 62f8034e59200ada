-- ===== src/Intake/Outcomes.antt =====
-- app/web/intake_service.py: what an upload leaves behind.
use rfp_shred.Prelude.{
  str_eq_refl, All-keep_none, keep-append, ==_refl, All, Bool, Bool-cases, List, Option, String,
  if◌then◌else◌, Text, [], ap, append-nil, arith, false, inl, inr, keep, length, ltb, map,
  map-append, none, not, refl, some, sort_by, str_eq, sym, ℕ, ◌++◌, ◌+◌, ◌==◌, ◌∙◌, ◌∷◌, ◌≡◌,
}
use rfp_shred.Results.{Result, returned, raised}
use rfp_shred.Models.{
  JobStatus, Job, Stage, ExtractionRun, RfpState, Rfp, Requirement, Account, Session,
}
use rfp_shred.Intake.Files.{sniff_type, rejection, ZipEntry, Bytes, FileType, Failure}
use rfp_shred.Intake.Service.{
  queue_run, is_prior, clone_ready, clone_matrix_rows, by_seq, new_rfp, admit, prior_of, validate,
  finally_unlink, register, accept, clone_requirements, process_upload, unlink, exists, Disk, World,
  Settings,
}
use rfp_shred.Queue.{enqueue, priority_for_new_job, monthly_usage_usd}

unlink-fresh : (p : String) (disk : Disk) → exists p disk ≡ false → unlink p disk ≡ disk
unlink-fresh p [] h = refl
unlink-fresh p (q ∷ disk) h =
    let other : str_eq p q ≡ false = ground arith in
    let rest : exists p disk ≡ false = ground arith in rw (other, unlink-fresh p disk rest) refl

unlink-written :
    (p : String) (disk : Disk) → exists p disk ≡ false → unlink p (disk ++ p ∷ []) ≡ disk
unlink-written p disk h =
    rw (keep-append (λ q. not (str_eq p q)) disk (p ∷ []), unlink-fresh p disk h, str_eq_refl p)
      (append-nil disk)

-- What a cloned row shows: all its columns but those of its identity and of the work on it.
pub record Shown : Type 0 where
  pub seq : ℕ
  pub page : ℕ
  pub clause_id : Text
  pub section : Text
  pub body : Text
  pub excerpt : Text
  pub tags : List Text

abbrev pub shown : Requirement → Shown
shown r = record {
  seq = r.seq;
  page = r.page;
  clause_id = r.clause_id;
  section = r.section;
  body = r.body;
  excerpt = r.excerpt;
  tags = r.tags;
}

abbrev pub IsUntouched : Requirement → Type 0
IsUntouched r = (r.response ≡ []) × (r.verified_at ≡ none)

clone_requirements-rows :
    (new_row : ℕ → ℕ) (rfp_id n : ℕ) (rows : List Requirement)
    → let new = clone_requirements new_row rfp_id n rows in
      (keep (λ (r : Requirement). r.rfp_id == rfp_id) new ≡ new)
      × (map shown new ≡ map shown rows)
      × All IsUntouched new
unfolding clone_requirements
clone_requirements-rows new_row rfp_id n [] = (refl, refl, tt)
clone_requirements-rows new_row rfp_id n (row ∷ rows) =
    let (kept, same, free) = clone_requirements-rows new_row rfp_id (n + 1) rows in
    (rw (==_refl rfp_id, kept) refl, rw same refl, ((refl, refl), free))

abbrev pub stage_of : ExtractionRun → ℕ × Stage
stage_of r = (r.rfp_id, r.stage)

abbrev pub status_of : Job → Option ℕ × JobStatus × ℕ
status_of j = (j.rfp_id, j.status, j.priority)

module _ (w : World) (settings : Settings) where
  admit-raised :
      (account : Account) (kind : FileType) (bytes : Bytes) (retain_source : Bool)
      (disk disk' : Disk) (s s' : Session) (e : Failure) (v : Result Failure (List ZipEntry))
      → exists w.tmp_path disk ≡ false
      → finally_unlink w settings
          (admit w settings account kind bytes retain_source v (disk ++ w.tmp_path ∷ []) s)
        ≡ (raised e, disk', s')
      → (disk' ≡ disk) × (s' ≡ s)
  admit-raised account kind bytes retain_source disk disk' s s' e (raised why) fresh h =
      (sym (ap (λ p. p.1) h) ∙ unlink-written w.tmp_path disk fresh, sym (ap (λ p. p.2) h))
  admit-raised account kind bytes retain_source disk disk' s s' e (returned es) fresh h =
      let no = ap (λ p. p.0) h in cc

  -- An upload that is not accepted leaves no file and no row behind, where the name of the temporary
  -- file is fresh.
  pub process_upload_rejected :
      (account : Account) (bytes : Bytes) (retain_source : Bool) (disk disk' : Disk)
      (s s' : Session) (e : Failure)
      → exists w.tmp_path disk ≡ false
      → process_upload w settings account bytes retain_source disk s ≡ (raised e, disk', s')
      → (disk' ≡ disk) × (s' ≡ s)
  unfolding process_upload
  process_upload_rejected account bytes retain_source disk disk' s s' e fresh h =
      elim (Bool-cases (ltb settings.max_upload_bytes (length bytes))) [
        | inl big ↦
            let same : process_upload w settings account bytes retain_source disk s
                ≡ (raised (rejection 413 "File exceeds the maximum upload size"), disk, s) =
              rw big refl in
            let out = sym same ∙ h in (sym (ap (λ p. p.1) out), sym (ap (λ p. p.2) out))
        | inr small ↦
            let same : process_upload w settings account bytes retain_source disk s
                ≡ accept w settings account bytes retain_source (sniff_type w.open_zip bytes) disk
                    s =
              rw small refl in
            for_kind (sniff_type w.open_zip bytes) (sym same ∙ h)
      ]
    where
      for_kind :
          (k : Option FileType)
          → accept w settings account bytes retain_source k disk s ≡ (raised e, disk', s')
          → (disk' ≡ disk) × (s' ≡ s)
      for_kind none out = (sym (ap (λ p. p.1) out), sym (ap (λ p. p.2) out))
      for_kind (some kind) out =
          admit-raised account kind bytes retain_source disk disk' s s' e
            (validate w settings kind bytes) fresh out

  -- The new row and the session that `register` makes of an accepted upload.
  abbrev made : Account → FileType → Bytes → Bool → Session → Rfp × Session
  made account kind bytes retain_source s =
      let prior = prior_of account.id (w.content_sha256 bytes) s.rfps in
      register w settings prior (new_rfp w settings account kind bytes retain_source prior) s

  process_upload-made :
      (account : Account) (bytes : Bytes) (retain_source : Bool) (disk disk' : Disk)
      (s s' : Session) (rfp : Rfp)
      → process_upload w settings account bytes retain_source disk s ≡ (returned rfp, disk', s')
      → (kind : FileType) × (sniff_type w.open_zip bytes ≡ some kind)
        × ((rfp, s') ≡ made account kind bytes retain_source s)
  unfolding process_upload
  process_upload-made account bytes retain_source disk disk' s s' rfp h =
      elim (Bool-cases (ltb settings.max_upload_bytes (length bytes))) [
        | inl big ↦
            let same : process_upload w settings account bytes retain_source disk s
                ≡ (raised (rejection 413 "File exceeds the maximum upload size"), disk, s) =
              rw big refl in
            let no : Result.raised (rejection 413 "File exceeds the maximum upload size")
                ≡ Result.returned rfp =
              ap (λ p. p.0) (sym same ∙ h) in
            cc
        | inr small ↦
            let same : process_upload w settings account bytes retain_source disk s
                ≡ accept w settings account bytes retain_source (sniff_type w.open_zip bytes) disk
                    s =
              rw small refl in
            for_kind (sniff_type w.open_zip bytes) refl (sym same ∙ h)
      ]
    where
      for_entries :
          (kind : FileType) (v : Result Failure (List ZipEntry))
          → finally_unlink w settings
              (admit w settings account kind bytes retain_source v (disk ++ w.tmp_path ∷ []) s)
            ≡ (returned rfp, disk', s')
          → (rfp, s') ≡ made account kind bytes retain_source s
      for_entries kind (raised e) out =
          let no : Result.raised e ≡ Result.returned rfp = ap (λ p. p.0) out in cc
      for_entries kind (returned es) out =
          let m = made account kind bytes retain_source s in
          let one : Path (Result Failure Rfp) (returned m.0) (returned rfp) = ap (λ p. p.0) out in
          let two : m.1 ≡ s' = ap (λ p. p.2) out in cc

      for_kind :
          (k : Option FileType)
          → sniff_type w.open_zip bytes ≡ k
          → accept w settings account bytes retain_source k disk s ≡ (returned rfp, disk', s')
          → (kind : FileType) × (sniff_type w.open_zip bytes ≡ some kind)
            × ((rfp, s') ≡ made account kind bytes retain_source s)
      for_kind none e out =
          let no : Result.raised (rejection 415 "Unsupported file type") ≡ Result.returned rfp =
            ap (λ p. p.0) out in
          cc
      for_kind (some kind) e out = (kind, e, for_entries kind (validate w settings kind bytes) out)

  -- Where a file of the account with the same hash is unlocked, and the newest such one has its matrix
  -- ready, an accepted upload is unlocked as that file is and gets a copy of its matrix: the same rows
  -- in the order of their numbers, with no response and no mark of verification. No run starts and no
  -- job is queued. No row has the id of the new solicitation before.
  pub process_upload_ready :
      (account : Account) (bytes : Bytes) (retain_source : Bool) (disk disk' : Disk)
      (s s' : Session) (rfp prior : Rfp)
      → prior_of account.id (w.content_sha256 bytes) s.rfps ≡ some prior
      → prior.state ≡ RfpState.ready
      → All (λ (r : Requirement). (r.rfp_id == w.new_rfp) ≡ false) s.requirements
      → process_upload w settings account bytes retain_source disk s ≡ (returned rfp, disk', s')
      → let rows = keep (λ (r : Requirement). r.rfp_id == w.new_rfp) s'.requirements in
        (rfp.state ≡ RfpState.ready)
        × (rfp.unlocked_at ≡ prior.unlocked_at)
        × (s'.jobs ≡ s.jobs)
        × (s'.runs ≡ s.runs)
        × (map shown rows
            ≡ map shown
                (sort_by by_seq (keep (λ (r : Requirement). r.rfp_id == prior.id) s.requirements)))
        × All IsUntouched rows
  unfolding clone_matrix_rows
  process_upload_ready account bytes retain_source disk disk' s s' rfp prior found done fresh h =
      let (kind, typed, same) =
        process_upload-made account bytes retain_source disk disk' s s' rfp h in
      let wanted =
        sort_by by_seq (keep (λ (r : Requirement). r.rfp_id == prior.id) s.requirements) in
      let new = clone_requirements w.new_row w.new_rfp 0 wanted in
      let cloned : made account kind bytes retain_source s
          ≡ clone_ready w settings prior
              (new_rfp w settings account kind bytes retain_source (some prior)) s =
        rw (found, done) refl in
      let out = same ∙ cloned in
      let (kept, shows, free) = clone_requirements-rows w.new_row w.new_rfp 0 wanted in
      let rows : keep (λ (r : Requirement). r.rfp_id == w.new_rfp) s'.requirements ≡ new =
        ap (λ p. keep (λ (r : Requirement). r.rfp_id == w.new_rfp) p.1.requirements) out
        ∙ rw
            (
              keep-append (λ (r : Requirement). r.rfp_id == w.new_rfp) s.requirements new,
              All-keep_none (λ (r : Requirement). r.rfp_id == w.new_rfp) s.requirements fresh,
            )
            kept in
      (
        ap (λ p. p.0.state) out,
        ap (λ p. p.0.unlocked_at) out,
        ap (λ p. p.1.jobs) out,
        ap (λ p. p.1.runs) out,
        rw rows shows,
        rw rows free,
      )

  -- Where no file of the account with the same hash is unlocked, an accepted upload stays locked: it
  -- gets one run, at the stage of reading, and one queued job, whose priority is zero if the account's
  -- model calls of this month have cost more than the cap, and ten otherwise.
  pub process_upload_new :
      (account : Account) (bytes : Bytes) (retain_source : Bool) (disk disk' : Disk)
      (s s' : Session) (rfp : Rfp)
      → All (λ r. is_prior account.id (w.content_sha256 bytes) r ≡ false) s.rfps
      → process_upload w settings account bytes retain_source disk s ≡ (returned rfp, disk', s')
      → (rfp.unlocked_at ≡ none)
        × (rfp.state ≡ RfpState.received)
        × (map stage_of s'.runs ≡ map stage_of s.runs ++ (rfp.id, Stage.reading) ∷ [])
        × (map status_of s'.jobs
            ≡ map status_of s.jobs
              ++ (
                some rfp.id,
                JobStatus.queued,
                if ltb settings.monthly_inference_cap_usd
                      (monthly_usage_usd w.month_start account.id s.inference_log)
                    then 0
                    else 10,
              )
                ∷ [])
        × (s'.requirements ≡ s.requirements)
  unfolding enqueue sort_by priority_for_new_job
  process_upload_new account bytes retain_source disk disk' s s' rfp locked h =
      let (kind, typed, same) =
        process_upload-made account bytes retain_source disk disk' s s' rfp h in
      let none_prior : prior_of account.id (w.content_sha256 bytes) s.rfps ≡ none =
        rw (All-keep_none (is_prior account.id (w.content_sha256 bytes)) s.rfps locked) refl in
      let queued : made account kind bytes retain_source s
          ≡ queue_run w settings (new_rfp w settings account kind bytes retain_source none) s =
        rw none_prior refl in
      let out = same ∙ queued in
      let id_of : rfp.id ≡ w.new_rfp = ap (λ p. p.0.id) out in
      (
        ap (λ p. p.0.unlocked_at) out,
        ap (λ p. p.0.state) out,
        rw id_of (ap (λ p. map stage_of p.1.runs) out ∙ map-append stage_of s.runs _),
        rw id_of (ap (λ p. map status_of p.1.jobs) out ∙ map-append status_of s.jobs _),
        ap (λ p. p.1.requirements) out,
      )
