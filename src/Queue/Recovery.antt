-- ===== src/Queue/Recovery.antt =====
-- app/core/queue.py: `requeue_stale_runs`. The rows that the join returns are objects, each run once,
-- and only its own round assigns to a run, so a round reads the run's columns as the join found them.
pub mod Keeps
use rfp_shred.Prelude.{
  Bool, List, Option, [], any, false, first, if◌then◌else◌, is_some, keep, leb, ltb, map, none, not,
  some, true, ℕ, ◌&&◌, ◌++◌, ◌+◌, ◌-◌, ◌/◌, ◌==◌, ◌∷◌,
}
use rfp_shred.Models
use rfp_shred.Models.{
  forget_output, forget_requirement, Session, Job, JobStatus, Rfp, RfpState, Origin, ExtractionRun,
  Stage, Requirement, FilteredLine, AuditDrop, RawModelOutput, seconds,
}
use rfp_shred.Queue.{
  max_attempts, max_retries_cause, priority_user, priority_sweep, update_job, enqueue,
}

-- The lines of the answer, by what they are formatted from.
pub data Report : Type 0 where
  lock_held_elsewhere given_up : ℕ → Report
  requeued : (run_id attempt : ℕ) → Report

-- `STALE_HEARTBEAT_S`, the default of `stale_after_s`.
abbrev pub stale_heartbeat_s : ℕ
stale_heartbeat_s = 600

abbrev pub is_working : Stage → Bool
is_working Stage.reading = true
is_working Stage.extracting = true
is_working Stage.auditing = true
is_working Stage.ready = false
is_working Stage.failed = false

abbrev pub is_stale : ℕ → ExtractionRun → Bool
is_stale cutoff run = is_working run.stage && ltb run.heartbeat_at cutoff

abbrev pub with_rfp : ExtractionRun → Option Rfp → List (ExtractionRun × Rfp)
with_rfp run none = []
with_rfp run (some rfp) = (run, rfp) ∷ []

-- The stale runs, each with its solicitation.
unfoldable pub stale_runs : ℕ → List Rfp → List ExtractionRun → List (ExtractionRun × Rfp)
stale_runs cutoff rfps [] = []
stale_runs cutoff rfps (run ∷ runs) =
    let rest = stale_runs cutoff rfps runs in
    if is_stale cutoff run
    then with_rfp run (first (λ (r : Rfp). r.id == run.rfp_id) rfps) ++ rest
    else rest

abbrev pub set_run : ℕ → (ExtractionRun → ExtractionRun) → Session → Session
set_run i f s = record s { runs = map (λ (r : ExtractionRun). if r.id == i then f r else r) s.runs }

abbrev pub set_rfp_state : ℕ → RfpState → Session → Session
set_rfp_state i st s = record s {
  rfps = map (λ (r : Rfp). if r.id == i then record r { state = st } else r) s.rfps;
}

-- `Job.status.in_(["queued", "processing"])`
abbrev pub is_open : JobStatus → Bool
is_open JobStatus.queued = true
is_open JobStatus.processing = true
is_open JobStatus.completed = false
is_open JobStatus.failed = false

abbrev pub is_unfinished : JobStatus → Bool
is_unfinished JobStatus.queued = true
is_unfinished JobStatus.processing = true
is_unfinished JobStatus.completed = false
is_unfinished JobStatus.failed = true

abbrev pub for_rfp : ℕ → Option ℕ → Bool
for_rfp i none = false
for_rfp i (some j) = j == i

abbrev pub give_up : ℕ → ExtractionRun → Rfp → Session → Session
give_up now run rfp s =
    let s' =
      set_rfp_state rfp.id RfpState.failed (
        set_run run.id (λ r. record r { stage = Stage.failed; error = some max_retries_cause })
          s) in
    record s' {
      jobs =
          map
            (λ (j : Job).
              if for_rfp rfp.id j.rfp_id && is_open j.status
              then record j { status = JobStatus.failed; finished_at = some now }
              else j)
            s'.jobs;
    }

-- `Requirement.rfp_id == rfp.id, Requirement.verified_at.is_(None)`
abbrev pub is_partial : ℕ → Requirement → Bool
is_partial i r = r.rfp_id == i && not (is_some r.verified_at)

-- Which requirements and which outputs the deletions take.
abbrev pub partial_gone : ℕ → List Requirement → ℕ → Bool
partial_gone rfp_id rows i = any (λ (r : Requirement). r.id == i && is_partial rfp_id r) rows

abbrev pub output_gone : ℕ → List RawModelOutput → ℕ → Bool
output_gone run_id outputs i =
    any (λ (o : RawModelOutput). o.id == i && o.extraction_run_id == run_id) outputs

-- The four deletions. By their foreign keys the requirements that stay forget the outputs that go, and the
-- corrections the requirements.
abbrev pub clean_output : ℕ → ℕ → Session → Session
clean_output run_id rfp_id s = record s {
  requirements =
      map (forget_output (output_gone run_id s.raw_outputs))
        (keep (λ r. not (is_partial rfp_id r)) s.requirements);
  corrections = map (forget_requirement (partial_gone rfp_id s.requirements)) s.corrections;
  filtered_lines = keep (λ (l : FilteredLine). not (l.rfp_id == rfp_id)) s.filtered_lines;
  audit_drops = keep (λ (d : AuditDrop). not (d.rfp_id == rfp_id)) s.audit_drops;
  raw_outputs = keep (λ (o : RawModelOutput). not (o.extraction_run_id == run_id)) s.raw_outputs;
}

abbrev pub origin_priority : Origin → ℕ
origin_priority Origin.user = priority_user
origin_priority Origin.sweep = priority_sweep

abbrev pub reset_job : Job → Job
reset_job j = record j {
  status = JobStatus.queued;
  locked_at = none;
  locked_by = none;
  started_at = none;
  finished_at = none;
}

abbrev pub requeue_job : (now new_id : ℕ) → Rfp → Option Job → Session → Session
requeue_job now new_id rfp none s = enqueue now new_id (some rfp.id) (origin_priority rfp.origin) s
requeue_job now new_id rfp (some j) s = update_job j.id reset_job s

abbrev pub find_job : ℕ → Session → Option Job
find_job i s = first (λ (j : Job). for_rfp i j.rfp_id && is_unfinished j.status) s.jobs

-- The deletions, and the assignments to the run and to the solicitation.
abbrev pub restart : (now : ℕ) → ExtractionRun → Rfp → Session → Session
restart now run rfp s = set_rfp_state rfp.id RfpState.received (
    set_run run.id (λ r. record r { attempt = run.attempt + 1; heartbeat_at = now })
      (clean_output run.id rfp.id s))

abbrev pub retry : (now new_id : ℕ) → ExtractionRun → Rfp → Session → Session
retry now new_id run rfp s =
    requeue_job now new_id rfp (find_job rfp.id (restart now run rfp s)) (restart now run rfp s)

-- `locks` says whether the advisory lock of a run is free, and `new_id` gives the id of the job that a
-- run's round may add.
module _ (now : ℕ) (locks : ℕ → Bool) (new_id : ℕ → ℕ) where
  abbrev pub recover : ExtractionRun → Rfp → Session → Report × Session
  recover run rfp s =
      if not (locks run.id)
      then (lock_held_elsewhere run.id, s)
      else if leb max_attempts run.attempt
      then (given_up run.id, give_up now run rfp s)
      else (requeued run.id (run.attempt + 1), retry now (new_id run.id) run rfp s)

  unfoldable pub recover_all : List (ExtractionRun × Rfp) → Session → List Report × Session
  recover_all [] s = ([], s)
  recover_all ((run, rfp) ∷ stale) s =
      let (report, s') = recover run rfp s in
      let (reports, final) = recover_all stale s' in (report ∷ reports, final)

  unfoldable pub requeue_stale_runs : (stale_after_s : ℕ) → Session → List Report × Session
  unfolding stale_runs recover_all
  requeue_stale_runs stale_after_s s =
      recover_all (stale_runs (now - seconds stale_after_s) s.rfps s.runs) s
