-- ===== src/Worker/Settled.antt =====
-- app/worker/main.py: how a claimed job ends.
use rfp_shred.Prelude.{
  ==_iff, All, Bool, Bool-cases, List, Option, String, [], ap, arith, false, if◌then◌else◌, inl,
  inr, map, none, refl, some, subst, sym, true, ℕ, ◌==◌, ◌∙◌, ◌∷◌, ◌≡◌, ◌≢◌, ◌⊎◌,
}
use rfp_shred.Results.{Result, returned, raised}
use rfp_shred.Models.{Session, Rfp, RfpState, Stage, ExtractionRun, Job, JobStatus}
use rfp_shred.Worker.Runner.{run_extraction, Outside, RunSettings, RunError}
use rfp_shred.Queue.{next_job, claimed, claim_next_job, claim, complete_job}
use rfp_shred.Worker.Published.{
  run_extraction-Ends, set_rfp_state-RfpIs, set_run-RunIs, IsUnpublished, Ends, RfpIs, RunIs,
}
use rfp_shred.Worker.Process.{
  with_run, newest_run, cause_of, get_rfp, fail_run, work, finish, process_one_job, with_rfp_row,
}

-- A job of that id has the status, and its end is dated.
abbrev pub JobIs : ℕ → JobStatus → Option ℕ → Session → Type 0
JobIs i status finished s =
    All (λ (j : Job). (j.id ≢ i) ⊎ ((j.status ≡ status) × (j.finished_at ≡ finished))) s.jobs

abbrev pub status_for : Bool → JobStatus
status_for ok = if ok then JobStatus.completed else JobStatus.failed

complete_job-JobIs :
    (finished : ℕ) (job : Job) (ok : Bool) (s : Session)
    → JobIs job.id (status_for ok) (some finished) (complete_job finished job ok s)
unfolding complete_job
complete_job-JobIs finished job ok s = for_jobs s.jobs
  where
    end : Job → Job
    end j = record j { status = status_for ok; finished_at = some finished }

    for_jobs :
        (js : List Job)
        → All
            (λ (j : Job).
              (j.id ≢ job.id) ⊎ ((j.status ≡ status_for ok) × (j.finished_at ≡ some finished)))
            (map
              (λ (j : Job).
                if j.id == job.id
                then record j { status = status_for ok; finished_at = some finished }
                else j)
              js)
    for_jobs [] = tt
    for_jobs (j ∷ js) = elim (Bool-cases (j.id == job.id)) [
      | inl e ↦ rw e (inr (refl, refl), for_jobs js)
      | inr e ↦ rw e (inl (λ same. ground (arith, ==_iff j.id job.id)), for_jobs js)
    ]

-- The two ways in which a job, its run and its solicitation may end together.
abbrev pub Concludes : ℕ → Job → Rfp → ExtractionRun → Session → Session → Type 0
Concludes finished job rfp run s s' =
    (JobIs job.id JobStatus.completed (some finished) s'
      × RunIs run.id Stage.ready s'
      × RfpIs rfp.id RfpState.ready s')
    ⊎ (JobIs job.id JobStatus.failed (some finished) s'
        × RunIs run.id Stage.failed s'
        × RfpIs rfp.id RfpState.failed s'
        × IsUnpublished s s')

module _ (o : Outside) (settings : RunSettings) (finished : ℕ) where
  finish-Concludes :
      (job : Job) (rfp : Rfp) (run : ExtractionRun) (s : Session) (r : Result RunError ℕ × Session)
      → Ends rfp run s r
      → Concludes finished job rfp run s (finish o settings finished job rfp run r)
  unfolding complete_job
  finish-Concludes job rfp run s (returned n, t) ends =
      inl (complete_job-JobIs finished job true t, ends.0, ends.1)
  finish-Concludes job rfp run s (raised e, t) ends =
      let u = fail_run (cause_of e) rfp run t in
      inr (
        complete_job-JobIs finished job false u,
        set_run-RunIs run.id Stage.failed
            (λ r. record r { stage = Stage.failed; error = some (cause_of e) }) t.runs (λ r. refl),
        set_rfp_state-RfpIs rfp.id RfpState.failed t.rfps,
        ends,
      )

  with_rfp_row-JobIs :
      (job : Job) (o' : Option Rfp) (s : Session)
      → let s' = with_rfp_row o settings finished job o' s in
        JobIs job.id JobStatus.completed (some finished) s'
        ⊎ JobIs job.id JobStatus.failed (some finished) s'
  with_rfp_row-JobIs job none s = inr (complete_job-JobIs finished job false s)
  with_rfp_row-JobIs job (some rfp) s = for_run (newest_run rfp.id s)
    where
      for_result :
          (run : ExtractionRun) (r : Result RunError ℕ × Session)
          → let s' = finish o settings finished job rfp run r in
            JobIs job.id JobStatus.completed (some finished) s'
            ⊎ JobIs job.id JobStatus.failed (some finished) s'
      for_result run (returned n, t) = inl (complete_job-JobIs finished job true t)
      for_result run (raised e, t) =
          inr (complete_job-JobIs finished job false (fail_run (cause_of e) rfp run t))

      for_run :
          (r : Option ExtractionRun)
          → let s' = with_run o settings finished job rfp r s in
            JobIs job.id JobStatus.completed (some finished) s'
            ⊎ JobIs job.id JobStatus.failed (some finished) s'
      for_run none = inr (complete_job-JobIs finished job false s)
      for_run (some run) = for_result run (run_extraction o settings rfp run s)

  -- A job that the worker claims never stays at processing: when `process_one_job` returns it, it is
  -- completed or failed, at the time of the end, whether or not it has a solicitation and a run, and
  -- whatever its run raised.
  pub process_one_job_settles :
      (locked started : ℕ) (worker_id : String) (s s' : Session) (job : Job)
      → process_one_job o settings finished false locked started worker_id s ≡ (some job, s')
      → JobIs job.id JobStatus.completed (some finished) s'
        ⊎ JobIs job.id JobStatus.failed (some finished) s'
  unfolding process_one_job
  process_one_job_settles locked started worker_id s s' job h =
      for_claim (claim_next_job locked started worker_id s) h
    where
      for_claim :
          (c : Option Job × Session)
          → work o settings finished c ≡ (some job, s')
          → JobIs job.id JobStatus.completed (some finished) s'
            ⊎ JobIs job.id JobStatus.failed (some finished) s'
      for_claim (none, t) g = let no : none ≡ some job = ap (λ p. p.0) g in cc
      for_claim (some k, t) g =
          let one : some k ≡ some job = ap (λ p. p.0) g in
          let same : k ≡ job = cc in
          let two : with_rfp_row o settings finished k (get_rfp k.rfp_id t) t ≡ s' =
            ap (λ p. p.1) g in
          subst
            (λ j.
              JobIs j.id JobStatus.completed (some finished) s'
              ⊎ JobIs j.id JobStatus.failed (some finished) s')
            same
            (subst
              (λ u.
                JobIs k.id JobStatus.completed (some finished) u
                ⊎ JobIs k.id JobStatus.failed (some finished) u)
              two (with_rfp_row-JobIs k (get_rfp k.rfp_id t) t))

  -- The job, its run and its solicitation end together, and in one of two ways: they are completed,
  -- ready and ready, or all failed, and then nothing was published.
  pub process_one_job-Concludes :
      (locked started : ℕ) (worker_id : String) (s s' : Session) (job : Job) (rfp : Rfp)
      (run : ExtractionRun)
      → process_one_job o settings finished false locked started worker_id s ≡ (some job, s')
      → get_rfp job.rfp_id s ≡ some rfp
      → newest_run rfp.id s ≡ some run
      → Concludes finished job rfp run s s'
  unfolding process_one_job claim_next_job
  process_one_job-Concludes locked started worker_id s s' job rfp run h has_rfp has_run =
      for_claim (next_job s) h
    where
      for_claim :
          (c : Option Job)
          → work o settings finished (claim locked started worker_id c s) ≡ (some job, s')
          → Concludes finished job rfp run s s'
      for_claim none g = let no : none ≡ some job = ap (λ p. p.0) g in cc
      for_claim (some k') g =
          let k = claimed locked started worker_id k' in
          let t = (claim locked started worker_id (some k') s).1 in
          let one : some k ≡ some job = ap (λ p. p.0) g in
          let same : k ≡ job = cc in
          let found : get_rfp k.rfp_id t ≡ some rfp =
            get_rfp-claimed k.rfp_id ∙ ap (λ j. get_rfp j.rfp_id s) same ∙ has_rfp in
          let two : with_rfp_row o settings finished k (get_rfp k.rfp_id t) t ≡ s' =
            ap (λ p. p.1) g in
          let row : with_rfp_row o settings finished k (get_rfp k.rfp_id t) t
              ≡ finish o settings finished k rfp run (run_extraction o settings rfp run t) =
            rw found (rw has_run refl) in
          subst (λ j. Concludes finished j rfp run s s') same
            (subst (λ u. Concludes finished k rfp run s u) (sym row ∙ two)
              (finish-Concludes k rfp run s (run_extraction o settings rfp run t)
                (run_extraction-Ends o settings rfp run t)))
        where
          get_rfp-claimed :
              (i : Option ℕ)
              → get_rfp i (claim locked started worker_id (some k') s).1 ≡ get_rfp i s
          get_rfp-claimed none = refl
          get_rfp-claimed (some i) = refl
