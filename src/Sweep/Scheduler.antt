-- ===== src/Sweep/Scheduler.antt =====
-- app/sweep/scheduler.py: which task is due, and the loop that runs the due ones. The calendar and
-- `int` come from outside.
use rfp_shred.Prelude.{
  Bool, List, Option, Text, [], codes, drop, false, if◌then◌else◌, none, not, some, suc, true, zero,
  ℕ, ◌%◌, ◌&&◌, ◌+◌, ◌/◌, ◌==◌, ◌∷◌,
}
use rfp_shred.Models.{Session}
use rfp_shred.Pipeline.Mine.Calls.{negative, nonneg, PyInt}
use rfp_shred.Pipeline.TextUtils.{text_eq}
use rfp_shred.Pipeline.TextUtils.Containment.{starts_with}

pub record CronSpec : Type 0 where
  pub minute : Text
  pub hour : Text
  pub dom : Text
  pub month : Text
  pub dow : Text

-- A reading of the clock, with its fields. `weekday` counts from Monday, as in Python.
pub record Moment : Type 0 where
  pub at : ℕ
  pub minute : ℕ
  pub hour : ℕ
  pub day : ℕ
  pub month : ℕ
  pub weekday : ℕ

abbrev pub star : Text
star = codes "*"

abbrev pub daily_at_three : CronSpec
daily_at_three = record {
  minute = codes "0";
  hour = codes "3";
  dom = star;
  month = star;
  dow = star;
}

-- `CronSpec.parse`, of the words of the text.
unfoldable pub parse_cron : List Text → CronSpec
parse_cron (minute ∷ hour ∷ dom ∷ month ∷ dow ∷ []) = record {
  minute = minute;
  hour = hour;
  dom = dom;
  month = month;
  dow = dow;
}
parse_cron _ = daily_at_three

-- The answer of a test, or nothing where it raises `ZeroDivisionError`.
abbrev pub Answer : Type 0
Answer = Option Bool

-- `value % n == 0`
abbrev pub divides : Option PyInt → ℕ → Answer
divides none value = some false
divides (some (nonneg zero)) value = none
divides (some (nonneg (suc n))) value = some (value % suc n == 0)
divides (some (negative zero)) value = none
divides (some (negative (suc n))) value = some (value % suc n == 0)

abbrev pub equals : Option PyInt → ℕ → Answer
equals none value = some false
equals (some (nonneg n)) value = some (value == n)
equals (some (negative n)) value = some (value == 0 && n == 0)

-- `and`, which looks at its right side only after a true left one.
abbrev pub and_also : Answer → Answer → Answer
and_also none b = none
and_also (some false) b = some false
and_also (some true) b = b

-- The minute of an instant: `replace(second=0, microsecond=0)`.
abbrev pub minute_of : ℕ → ℕ
minute_of at = at / 60_000_000

abbrev pub ran_in : ℕ → Option ℕ → Bool
ran_in at none = false
ran_in at (some last) = minute_of last == minute_of at

module _ (parse_int : Text → Option PyInt) where
  unfoldable pub field_matches : Text → ℕ → Answer
  unfolding starts_with
  field_matches field value =
      if text_eq field star
      then some true
      else if starts_with (codes "*/") field
      then divides (parse_int (drop 2 field)) value
      else equals (parse_int field) value

  abbrev pub fields_match : CronSpec → Moment → Answer
  fields_match spec now = and_also (field_matches spec.minute now.minute) (
      and_also (field_matches spec.hour now.hour) (
        and_also (field_matches spec.dom now.day) (
          and_also (field_matches spec.month now.month)
            (field_matches spec.dow ((now.weekday + 1) % 7)))))

  abbrev pub unless_ran : Moment → Option ℕ → Answer → Answer
  unless_ran now last none = none
  unless_ran now last (some false) = some false
  unless_ran now last (some true) = some (not (ran_in now.at last))

  unfoldable pub is_due : CronSpec → Moment → Option ℕ → Answer
  unfolding field_matches
  is_due spec now last = unless_ran now last (fields_match spec now)

pub data Task : Type 0 where
  sweep cleanup quality provider_health : Task

-- `last_runs`, with the instant of each task's last run.
abbrev pub LastRuns : Type 0
LastRuns = Task → Option ℕ

abbrev pub task_eq : Task → Task → Bool
task_eq sweep sweep = true
task_eq cleanup cleanup = true
task_eq quality quality = true
task_eq provider_health provider_health = true
task_eq _ _ = false

abbrev pub set_last : Task → ℕ → LastRuns → LastRuns
set_last t at last u = if task_eq u t then some at else last u

-- The scheduler's state. `started` has each run of a task, the latest first, and `crashed` says that an
-- exception has left the loop.
pub record Scheduler : Type 0 where
  pub last_runs : LastRuns
  pub session : Session
  pub started : List (Task × ℕ)
  pub crashed : Bool

-- A task, which commits its session or raises.
abbrev pub Run : Type 0
Run = Task → Session → Option Session

abbrev pub committed : Option Session → Session → Session
committed none s = s
committed (some s') s = s'

module _ (parse_int : Text → Option PyInt) (cron : Task → List Text) (run : Run) where
  abbrev pub on_due : Task → Moment → Answer → Scheduler → Scheduler
  on_due t now none st = record st { crashed = true }
  on_due t now (some false) st = st
  on_due t now (some true) st = record st {
    last_runs = set_last t now.at st.last_runs;
    started = (t, now.at) ∷ st.started;
    session = committed (run t st.session) st.session;
  }

  abbrev pub schedule : Moment → Task → Scheduler → Scheduler
  schedule now t st =
      if st.crashed
      then st
      else on_due t now (is_due parse_int (parse_cron (cron t)) now (st.last_runs t)) st

  abbrev pub cycle : Moment → Scheduler → Scheduler
  cycle now st =
      schedule now provider_health
        (schedule now quality (schedule now cleanup (schedule now sweep st)))

  -- The loop, over the readings of the clock, one for each cycle.
  unfoldable pub run_scheduler : List Moment → Scheduler → Scheduler
  unfolding is_due parse_cron
  run_scheduler [] st = st
  run_scheduler (now ∷ moments) st = run_scheduler moments (cycle now st)
