-- ===== src/Worker/Process.antt =====
-- app/worker/main.py: one job, the loop of the worker, and one round of the heartbeat thread.
use rfp_shred.Prelude.{
  Bool, List, Option, String, Text, [], codes, false, first, if◌then◌else◌, keep, leb, max, none,
  some, sort_by, suc, true, zero, ℕ, ◌++◌, ◌+◌, ◌==◌, ◌∷◌,
}
use rfp_shred.Results.{Result, returned, raised}
use rfp_shred.Models.{Session, Rfp, RfpState, Stage, ExtractionRun, Job}
use rfp_shred.Worker.Runner.{
  crashed, run_extraction, extraction_failed, Outside, RunSettings, RunError,
}
use rfp_shred.Queue.Recovery.{
  stale_heartbeat_s, requeue_stale_runs, is_working, set_rfp_state, set_run,
}
use rfp_shred.Queue.{claim_next_job, complete_job}

-- A round of `HeartbeatThread.run`.
unfoldable pub beat : (now run_id : ℕ) → Session → Session
beat now run_id s =
    set_run run_id (λ r. if is_working r.stage then record r { heartbeat_at = now } else r) s

abbrev pub get_rfp : Option ℕ → Session → Option Rfp
get_rfp none s = none
get_rfp (some i) s = first (λ (r : Rfp). r.id == i) s.rfps

abbrev pub run_before : ExtractionRun → ExtractionRun → Bool
run_before r t = leb t.created_at r.created_at

abbrev pub head_run : List ExtractionRun → Option ExtractionRun
head_run [] = none
head_run (r ∷ rs) = some r

-- The newest run of a solicitation.
abbrev pub newest_run : ℕ → Session → Option ExtractionRun
newest_run rfp_id s =
    head_run (sort_by run_before (keep (λ (r : ExtractionRun). r.rfp_id == rfp_id) s.runs))

-- The cause that is recorded, by what was raised.
abbrev pub cause_of : RunError → Text
cause_of (extraction_failed cause) = cause
cause_of (crashed text) = codes "worker error: " ++ text

abbrev pub fail_run : Text → Rfp → ExtractionRun → Session → Session
fail_run cause rfp run s =
    set_rfp_state rfp.id RfpState.failed
      (set_run run.id (λ r. record r { stage = Stage.failed; error = some cause }) s)

module _ (o : Outside) (settings : RunSettings) (finished : ℕ) where
  -- The `except` and `else` blocks.
  abbrev pub finish : Job → Rfp → ExtractionRun → Result RunError ℕ × Session → Session
  finish job rfp run (returned n, s) = complete_job finished job true s
  finish job rfp run (raised e, s) =
      complete_job finished job false (fail_run (cause_of e) rfp run s)

  abbrev pub with_run : Job → Rfp → Option ExtractionRun → Session → Session
  with_run job rfp none s = complete_job finished job false s
  with_run job rfp (some run) s = finish job rfp run (run_extraction o settings rfp run s)

  abbrev pub with_rfp_row : Job → Option Rfp → Session → Session
  with_rfp_row job none s = complete_job finished job false s
  with_rfp_row job (some rfp) s = with_run job rfp (newest_run rfp.id s) s

  abbrev pub work : Option Job × Session → Option Job × Session
  work (none, s) = (none, s)
  work (some job, s) = (some job, with_rfp_row job (get_rfp job.rfp_id s) s)

  -- The job is the row as it was claimed. `degraded` is the answer of `provider_health.is_degraded`.
  unfoldable pub process_one_job :
      (degraded : Bool) → (locked started : ℕ) → String → Session → Option Job × Session
  unfolding run_extraction complete_job claim_next_job
  process_one_job true locked started worker_id s = (none, s)
  process_one_job false locked started worker_id s =
      work (claim_next_job locked started worker_id s)

-- What the outside gives to one round of the worker's loop.
pub record Cycle : Type 0 where
  pub outside : Outside
  pub degraded : Bool
  pub locked_at : ℕ
  pub started_at : ℕ
  pub finished_at : ℕ

abbrev pub after_sleep : Option Job → ℕ → ℕ
after_sleep none sleeps = sleeps + 1
after_sleep (some j) sleeps = sleeps

-- The loop with its `max_cycles`, of which `left` remain: how often it slept, and the tables.
unfoldable pub run_cycles :
    RunSettings → (ℕ → Cycle) → String → (left cycles sleeps : ℕ) → Session → ℕ × Session
unfolding process_one_job
run_cycles settings cycle worker_id zero cycles sleeps s = (sleeps, s)
run_cycles settings cycle worker_id (suc left) cycles sleeps s =
    let c = cycle cycles in
    let (job, s') =
      process_one_job c.outside settings c.finished_at c.degraded c.locked_at c.started_at worker_id
        s in
    run_cycles settings cycle worker_id left (cycles + 1) (after_sleep job sleeps) s'

-- `run_worker`, with its boot: the runs that have gone stale are queued again. With a greatest number of
-- cycles it runs that many, and at least one.
unfoldable pub run_worker :
    (now : ℕ) (locks : ℕ → Bool) (new_id : ℕ → ℕ)
    → RunSettings
    → (ℕ → Cycle)
    → String
    → (max_cycles : ℕ) → Session
    → ℕ × Session
unfolding requeue_stale_runs run_cycles
run_worker now locks new_id settings cycle worker_id max_cycles s =
    run_cycles settings cycle worker_id (max 1 max_cycles) 0 0
      (requeue_stale_runs now locks new_id stale_heartbeat_s s).1
