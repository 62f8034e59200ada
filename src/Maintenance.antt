-- ===== src/Maintenance.antt =====
-- app/core/maintenance.py: the retention of sources and the jobs that the cap has parked. Whether a file
-- can be removed, `unlinks`, comes from outside. A loop over the rows of a query is a pass over the
-- table that leaves the other rows alone.
pub mod Retention
use rfp_shred.Prelude.{
  Bool, List, Option, String, [], false, first, if◌then◌else◌, is_some, keep, leb, ltb, map, none,
  not, some, sort_by, str_eq, true, ℕ, ◌&&◌, ◌++◌, ◌+◌, ◌-◌, ◌/◌, ◌==◌, ◌∷◌,
}
use rfp_shred.Models.{
  Session, Rfp, RfpState, Origin, ExtractionRun, Stage, Job, JobStatus, RetentionLog, days,
}
use rfp_shred.Queue.{is_queued, is_over_cap, priority_user, priority_sweep}

-- The lines of the answers, by what they are formatted from.
pub data Report : Type 0 where
  destroyed_after_grace : (rfp_id : ℕ) → Report
  expired : (rfp_id : ℕ) → (file_destroyed : Bool) → Report

abbrev pub grace : ℕ
grace = days 1

abbrev pub failed_ttl_days : ℕ
failed_ttl_days = 7

abbrev pub is_ready : Stage → Bool
is_ready Stage.ready = true
is_ready Stage.reading = false
is_ready Stage.extracting = false
is_ready Stage.auditing = false
is_ready Stage.failed = false

abbrev latest_first : ExtractionRun → ExtractionRun → Bool
latest_first r q = leb q.heartbeat_at r.heartbeat_at

abbrev heartbeat_or : ℕ → List ExtractionRun → ℕ
heartbeat_or created [] = created
heartbeat_or created (run ∷ runs) = run.heartbeat_at

-- `_ready_clock`. Its columns are not null, so there is always a clock.
unfoldable pub ready_clock : List ExtractionRun → Rfp → ℕ
ready_clock runs rfp = heartbeat_or rfp.created_at (
    sort_by latest_first
      (keep (λ (r : ExtractionRun). r.rfp_id == rfp.id && is_ready r.stage) runs))

-- `Rfp.state.in_(["ready", "unlocked", "cleared", "exported"])`
abbrev pub is_settled : RfpState → Bool
is_settled RfpState.ready = true
is_settled RfpState.unlocked = true
is_settled RfpState.cleared = true
is_settled RfpState.exported = true
is_settled _ = false

abbrev pub is_failed : RfpState → Bool
is_failed RfpState.failed = true
is_failed _ = false

module _ (unlinks : String → Bool) where
  abbrev pub destroy : Option String → Rfp → Bool × Rfp
  destroy none rfp = (false, rfp)
  destroy (some path) rfp =
      if str_eq path ""
      then (false, rfp)
      else if unlinks path
      then (true, record rfp { stored_path = none })
      else (false, rfp)

  -- `_destroy_file`
  abbrev pub destroy_file : Rfp → Bool × Rfp
  destroy_file rfp = destroy rfp.stored_path rfp

  -- What a pass makes of one row: the row afterwards, and the lines that it adds.
  pub record Visit : Type 0 where
    pub row : Rfp
    pub log : List RetentionLog
    pub reports : List Report

  abbrev pub unseen : Rfp → Visit
  unseen rfp = record { row = rfp; log = []; reports = [] }

  abbrev pub noted_grace : Bool × Rfp → Visit
  noted_grace (false, rfp) = unseen rfp
  noted_grace (true, rfp) = record {
    row = rfp;
    log = record { rfp_id = some rfp.id; action = "destroyed_after_24h_grace" } ∷ [];
    reports = destroyed_after_grace rfp.id ∷ [];
  }

  -- The first query with its loop.
  abbrev pub visit_settled : ℕ → List ExtractionRun → Rfp → Visit
  visit_settled now runs rfp =
      if not rfp.retain_source && (is_some rfp.stored_path && is_settled rfp.state)
      then if ltb (ready_clock runs rfp) (now - grace)
        then noted_grace (destroy_file rfp)
        else unseen rfp
      else unseen rfp

  abbrev pub noted_expiry : Bool × Rfp → Visit
  noted_expiry (destroyed, rfp) = record {
    row = record rfp { state = RfpState.expired };
    log = record { rfp_id = some rfp.id; action = "expired_failed_upload" } ∷ [];
    reports = expired rfp.id destroyed ∷ [];
  }

  -- The second query with its loop.
  abbrev pub visit_failed : ℕ → Rfp → Visit
  visit_failed now rfp =
      if is_failed rfp.state
        && (not rfp.retain_source && ltb rfp.created_at (now - days failed_ttl_days))
      then noted_expiry (destroy_file rfp)
      else unseen rfp

  -- A pass over the table.
  unfoldable pub pass : (Rfp → Visit) → List Rfp → List Rfp × (List RetentionLog × List Report)
  pass visit [] = ([], ([], []))
  pass visit (rfp ∷ rfps) =
      let v = visit rfp in
      let (rows, (log, reports)) = pass visit rfps in
      (v.row ∷ rows, (v.log ++ log, v.reports ++ reports))

  unfoldable pub enforce_source_retention : ℕ → Session → List Report × Session
  unfolding pass ready_clock
  enforce_source_retention now s =
      let (graced, (log, reports)) = pass (visit_settled now s.runs) s.rfps in
      let (rows, (log', reports')) = pass (visit_failed now) graced in
      (
        reports ++ reports',
        record s { rfps = rows; retention_log = s.retention_log ++ (log ++ log') },
      )

-- The account of a job's solicitation, and the priority that its origin gives.
abbrev job_rfp : List Rfp → Option ℕ → Option Rfp
job_rfp rfps none = none
job_rfp rfps (some i) = first (λ (r : Rfp). r.id == i) rfps

abbrev pub restored_priority : Origin → ℕ
restored_priority Origin.sweep = priority_sweep
restored_priority Origin.user = priority_user

module _ (month_start cap_usd : ℕ) (s : Session) where
  abbrev pub unpark : Option Rfp → Job → Job
  unpark none j = j
  unpark (some rfp) j =
      if is_over_cap month_start rfp.account_id cap_usd s
      then j
      else record j { priority = restored_priority rfp.origin }

  -- `Job.status == "queued", Job.priority == 0`, joined with the solicitation.
  abbrev pub visit_job : Job → Job
  visit_job j =
      if is_queued j.status && j.priority == 0 then unpark (job_rfp s.rfps j.rfp_id) j else j

  unfoldable pub reprioritize_capped_jobs : Session
  reprioritize_capped_jobs = record s { jobs = map visit_job s.jobs }
