-- ===== src/Queue.antt =====
-- app/core/queue.py and app/core/usage.py: the job queue in the database. A query is a pass over the
-- table in insertion order, and rows that compare equal come in that order. The clock, the ids of new
-- rows and the answers of the advisory lock come from outside; an advisory lock is released by the
-- step that took it, so no state remains of it.
pub mod Claims
pub mod Recovery
use rfp_shred.Prelude.{
  Bool, List, Option, String, Text, [], codes, false, first, if◌then◌else◌, keep, leb, ltb, map,
  max, none, some, sort_by, true, ℕ, ◌&&◌, ◌++◌, ◌+◌, ◌-◌, ◌/◌, ◌==◌, ◌||◌, ◌∷◌,
}
use rfp_shred.Models
use rfp_shred.Models.{
  Session, Job, JobStatus, Rfp, RfpState, Origin, ExtractionRun, Stage, Requirement, FilteredLine,
  AuditDrop, RawModelOutput, InferenceLog,
}

abbrev pub max_attempts : ℕ
max_attempts = 3

abbrev pub max_retries_cause : Text
max_retries_cause = codes "max retries exceeded — worker repeatedly died on this document"

abbrev pub priority_user : ℕ
priority_user = 10

abbrev pub priority_sweep : ℕ
priority_sweep = 1

abbrev pub priority_capped : ℕ
priority_capped = 0

abbrev pub update_job : ℕ → (Job → Job) → Session → Session
update_job i f s = record s { jobs = map (λ (j : Job). if j.id == i then f j else j) s.jobs }

unfoldable pub enqueue : (now new_id : ℕ) → Option ℕ → ℕ → Session → Session
enqueue now new_id rfp_id priority s = record s {
  jobs =
      s.jobs
      ++ record {
        id = new_id;
        rfp_id = rfp_id;
        priority = priority;
        status = JobStatus.queued;
        locked_at = none;
        locked_by = none;
        enqueued_at = now;
        started_at = none;
        finished_at = none;
      }
        ∷ [];
}

abbrev pub is_queued : JobStatus → Bool
is_queued JobStatus.queued = true
is_queued JobStatus.processing = false
is_queued JobStatus.completed = false
is_queued JobStatus.failed = false

-- `Job.status == "queued", Job.priority > 0`
abbrev pub claimable : Job → Bool
claimable j = is_queued j.status && ltb 0 j.priority

-- `order_by(Job.priority.desc(), Job.enqueued_at.asc())`
abbrev pub job_before : Job → Job → Bool
job_before j k =
    ltb k.priority j.priority || (k.priority == j.priority && leb j.enqueued_at k.enqueued_at)

abbrev pub head : List Job → Option Job
head [] = none
head (j ∷ js) = some j

abbrev pub next_job : Session → Option Job
next_job s = head (sort_by job_before (keep claimable s.jobs))

-- The two readings of the clock come one after the other.
abbrev pub claimed : (locked started : ℕ) → String → Job → Job
claimed locked started worker_id j = record j {
  status = JobStatus.processing;
  locked_at = some locked;
  locked_by = some worker_id;
  started_at = some started;
}

abbrev pub claim : (locked started : ℕ) → String → Option Job → Session → Option Job × Session
claim locked started worker_id none s = (none, s)
claim locked started worker_id (some j) s = (
  some (claimed locked started worker_id j),
  update_job j.id (claimed locked started worker_id) s,
)

unfoldable pub claim_next_job : (locked started : ℕ) → String → Session → Option Job × Session
claim_next_job locked started worker_id s = claim locked started worker_id (next_job s) s

unfoldable pub complete_job : (now : ℕ) → Job → Bool → Session → Session
complete_job now job ok s =
    update_job job.id
      (λ j. record j {
        status = if ok then JobStatus.completed else JobStatus.failed;
        finished_at = some now;
      })
      s

-- `monthly_usage_usd`. `month_start` is the first instant of the month; costs are whole units of the
-- column's smallest one.
unfoldable pub monthly_usage_usd : ℕ → ℕ → List InferenceLog → ℕ
monthly_usage_usd month_start account_id [] = 0
monthly_usage_usd month_start account_id (l ∷ ls) =
    let rest = monthly_usage_usd month_start account_id ls in
    if of_account l.account_id && leb month_start l.created_at
    then l.estimated_cost_usd + rest
    else rest
  where
    of_account : Option ℕ → Bool
    of_account none = false
    of_account (some a) = a == account_id

abbrev pub is_over_cap : ℕ → ℕ → ℕ → Session → Bool
is_over_cap month_start account_id cap_usd s =
    ltb cap_usd (monthly_usage_usd month_start account_id s.inference_log)

unfoldable pub priority_for_new_job : ℕ → ℕ → Origin → ℕ → Session → ℕ
priority_for_new_job month_start account_id Origin.sweep cap_usd s = priority_sweep
priority_for_new_job month_start account_id Origin.user cap_usd s =
    if is_over_cap month_start account_id cap_usd s then priority_capped else priority_user
