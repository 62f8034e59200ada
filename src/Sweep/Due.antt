-- ===== src/Sweep/Due.antt =====
-- app/sweep/scheduler.py: how often a task runs.
use rfp_shred.Prelude.{
  Bool, Bool-cases, List, Option, Text, [], arith, false, false≢true, if◌then◌else◌, inl, inr, none,
  not, refl, some, true, ℕ, ◌∷◌, ◌≡◌,
}
use rfp_shred.Sweep.Scheduler.{
  fields_match, parse_cron, cycle, schedule, set_last, run_scheduler, is_due, unless_ran, on_due,
  ran_in, task_eq, Moment, Answer, Task, Scheduler, Run,
}
use rfp_shred.Pipeline.Mine.Calls.{PyInt}

-- The instant of a task's latest run.
abbrev pub latest_run : Task → List (Task × ℕ) → Option ℕ
latest_run t [] = none
latest_run t ((u, at) ∷ rest) =
    let earlier = latest_run t rest in if task_eq t u then some at else earlier

-- No run is in the same minute as the run of the same task before it.
abbrev pub IsApart : List (Task × ℕ) → Type 0
IsApart [] = Unit
IsApart ((t, at) ∷ rest) = (ran_in at (latest_run t rest) ≡ false) × IsApart rest

-- The scheduler remembers the latest run of each task, and its runs are apart.
abbrev pub IsPaced : Scheduler → Type 0
IsPaced st = ((t : Task) → latest_run t st.started ≡ st.last_runs t) × IsApart st.started

module _ (parse_int : Text → Option PyInt) (cron : Task → List Text) (run : Run) where
  on_due-IsPaced :
      (t : Task) (now : Moment) (a : Answer) (st : Scheduler)
      → (a ≡ some true → ran_in now.at (st.last_runs t) ≡ false)
      → IsPaced st
      → IsPaced (on_due parse_int cron run t now a st)
  on_due-IsPaced t now none st new paced = paced
  on_due-IsPaced t now (some false) st new paced = paced
  on_due-IsPaced t now (some true) st new paced = (remembers, (rw (paced.0 t) (new refl), paced.1))
    where
      remembers :
          (u : Task) → latest_run u ((t, now.at) ∷ st.started) ≡ set_last t now.at st.last_runs u
      remembers u = elim (Bool-cases (task_eq u t)) [ inl e ↦ rw e refl | inr e ↦ rw e (paced.0 u) ]

  unless_ran-new :
      (now : Moment) (last : Option ℕ) (a : Answer)
      → unless_ran parse_int now last a ≡ some true
      → ran_in now.at last ≡ false
  unless_ran-new now last none h = cc
  unless_ran-new now last (some false) h = let no : false ≡ true = cc in absurd (false≢true no)
  unless_ran-new now last (some true) h =
      let ran : not (ran_in now.at last) ≡ true = cc in ground arith

  schedule-IsPaced :
      (now : Moment) (t : Task) (st : Scheduler)
      → IsPaced st
      → IsPaced (schedule parse_int cron run now t st)
  unfolding is_due
  schedule-IsPaced now t st paced = for_crash st.crashed
    where
      for_crash :
          (b : Bool)
          → IsPaced (
              if b
              then st
              else on_due parse_int cron run t now
                  (is_due parse_int (parse_cron (cron t)) now (st.last_runs t))
                  st)
      for_crash true = paced
      for_crash false =
          on_due-IsPaced t now (is_due parse_int (parse_cron (cron t)) now (st.last_runs t)) st
            (unless_ran-new now (st.last_runs t) (fields_match parse_int (parse_cron (cron t)) now))
            paced

  -- However the clock moves and whatever the tasks do, no run of a task is in the same minute as the run
  -- of that task before it.
  pub run_scheduler-IsPaced :
      (moments : List Moment) (st : Scheduler)
      → IsPaced st
      → IsPaced (run_scheduler parse_int cron run moments st)
  unfolding run_scheduler
  run_scheduler-IsPaced [] st paced = paced
  run_scheduler-IsPaced (now ∷ moments) st paced =
      run_scheduler-IsPaced moments (cycle parse_int cron run now st) (
        schedule-IsPaced now Task.provider_health
          (schedule parse_int cron run now Task.quality (
            schedule parse_int cron run now Task.cleanup
              (schedule parse_int cron run now Task.sweep st)))
          (schedule-IsPaced now Task.quality
            (schedule parse_int cron run now Task.cleanup
              (schedule parse_int cron run now Task.sweep st))
            (schedule-IsPaced now Task.cleanup (schedule parse_int cron run now Task.sweep st)
              (schedule-IsPaced now Task.sweep st paced))))
