-- ===== src/Tests/Sweeps.antt =====
-- app/sweep/ at concrete inputs.
use rfp_shred.Prelude.{
  List, Option, Text, [], arith, codes, false, none, refl, some, true, ◌+◌, ◌∷◌, ◌≡◌,
}
use rfp_shred.Models.{Session, Account, empty_session}
use rfp_shred.Sweep.Client.{fetch_postings, SamNoticeData, FetchResult, Search}
use rfp_shred.Sweep.Runner.{run_sweep_once, SweepWorld, SweepSettings}
use rfp_shred.Sweep.Scheduler.{run_scheduler, Moment, Task, Scheduler}
use rfp_shred.Sweep.Matches.{run_sweep_once-IsUnique, IsUnique}
use rfp_shred.Pipeline.Mine.Calls.{nonneg, PyInt}
use rfp_shred.Sweep.Due.{run_scheduler-IsPaced, IsPaced}
use rfp_shred.Sweep.Paging.{fetch_postings_terminates}

-- An endpoint that always fails.
abbrev dead : Search
dead n = none

fetch_postings_terminates_example : (result : FetchResult) × (fetch_postings dead 11 ≡ some result)
fetch_postings_terminates_example = fetch_postings_terminates dead 11 10 (omega arith) (omega arith)

abbrev notice : SamNoticeData
notice = record {
  notice_id = "n-1";
  title = "Roofs";
  naics = "238160" ∷ [];
  set_aside = none;
  posted_at = none;
  due_at = some 9;
  solicitation_number = none;
  attachment_url = some "https://sam.gov/a";
}

abbrev founder : Account
founder = record {
  id = 2;
  email = "a@b";
  pass_hash = [];
  is_staff = true;
  watch_naics = "238160" ∷ [];
  watch_set_asides = [];
}

abbrev world : SweepWorld
world = record {
  now = 50;
  finished = 60;
  open_zip = λ b. none;
  download = λ url. some (codes "%PDF");
  content_sha256 = λ b. "hash";
  stored_path = λ n k. "incoming/1.pdf";
  new_rfp = λ n. 8 + n;
  new_run = λ n. 9 + n;
  new_job = λ n. 10 + n;
  new_sweep = 1;
}

abbrev settings : SweepSettings
settings = record { max_upload_bytes = 1000; max_sweep_matches_per_run = 1 }

abbrev office : Session
office = record empty_session { accounts = founder ∷ [] }

abbrev found : FetchResult
found = record { notices = notice ∷ notice ∷ []; errors = []; calls = 1 }

run_sweep_once-IsUnique_example : IsUnique (run_sweep_once world settings found office)
run_sweep_once-IsUnique_example =
    run_sweep_once-IsUnique world settings found office (λ a t. omega arith)

abbrev parse_int : Text → Option PyInt
parse_int t = some (nonneg 0)

abbrev cron : Task → List Text
cron t = []

abbrev run : Task → Session → Option Session
run t s = some s

abbrev at_three : Moment
at_three = record { at = 0; minute = 0; hour = 0; day = 1; month = 1; weekday = 0 }

abbrev idle : Scheduler
idle = record { last_runs = λ t. none; session = office; started = []; crashed = false }

run_scheduler-IsPaced_example :
    IsPaced (run_scheduler parse_int cron run (at_three ∷ at_three ∷ []) idle)
run_scheduler-IsPaced_example =
    run_scheduler-IsPaced parse_int cron run (at_three ∷ at_three ∷ []) idle (λ t. refl, tt)
