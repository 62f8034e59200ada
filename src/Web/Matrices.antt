-- ===== src/Web/Matrices.antt =====
-- app/web/routes_pages.py and app/web/routes_billing.py: the routes that start work on a solicitation, or
-- hand out its matrix, for the account of the session. Pages are left out, their status is kept.
pub mod Access
use rfp_shred.Prelude.{
  Bool, List, Option, String, [], all, false, first, if◌then◌else◌, is_some, keep, leb, none, not,
  some, sort_by, str_eq, true, ℕ, ◌&&◌, ◌++◌, ◌+◌, ◌-◌, ◌/◌, ◌==◌, ◌∷◌,
}
use rfp_shred.Results.{Result, returned, raised}
use rfp_shred.Models.{
  of_uuid, Session, Account, Rfp, RfpState, Stage, ExtractionRun, Requirement, Action, audit,
}
use rfp_shred.Intake.Service.{process_upload, exists, Disk, World, Settings}
use rfp_shred.Auth.Sessions.{http_exception, responded, Reply}
use rfp_shred.RateLimit.{Buckets, hit}
use rfp_shred.Worker.Process.{fail_run, newest_run}
use rfp_shred.Queue.Recovery.{set_rfp_state}
use rfp_shred.Queue.{priority_for_new_job, enqueue}
use rfp_shred.Intake.Files.{crash, rejection, Bytes, Failure}
use rfp_shred.Billing.Gate.{is_entitled}

-- What the routes ask the outside for: `uuid.UUID` of a text, the clock, the limiter's, the first instant
-- of the month, and ids of new rows.
pub record WebWorld : Type 0 where
  pub parse_uuid : String → Option ℕ
  pub now : ℕ
  pub ticks : ℕ
  pub month_start : ℕ
  pub new_run : ℕ
  pub new_job : ℕ

abbrev pub owned : Account → Option Rfp → Option Rfp
owned account none = none
owned account (some rfp) = if rfp.account_id == account.id then some rfp else none

abbrev pub find_rfp : Option ℕ → Session → Option Rfp
find_rfp none s = none
find_rfp (some i) s = first (λ (r : Rfp). r.id == i) s.rfps

-- `_get_rfp`: nothing where it raises `not_found`, for each of the three reasons.
unfoldable pub get_rfp : WebWorld → Session → String → Account → Option Rfp
get_rfp w s rfp_id account = owned account (find_rfp (w.parse_uuid rfp_id) s)

-- `not rfp.stored_path or not Path(rfp.stored_path).exists()`
abbrev pub has_source : Disk → Option String → Bool
has_source disk none = false
has_source disk (some path) = not (str_eq path "") && exists path disk

abbrev pub is_over : Stage → Bool
is_over Stage.ready = true
is_over Stage.failed = true
is_over _ = false

abbrev pub next_run : WebWorld → Rfp → ExtractionRun → ExtractionRun
next_run w rfp prior = record {
  id = w.new_run;
  rfp_id = rfp.id;
  stage = Stage.reading;
  heartbeat_at = w.now;
  attempt = prior.attempt + 1;
  error = none;
  created_at = w.now;
}

abbrev pub start_again : WebWorld → ℕ → Account → Rfp → ExtractionRun → Session → Session
start_again w cap account rfp prior s =
    let s' =
      set_rfp_state rfp.id RfpState.received
        (record s { runs = s.runs ++ next_run w rfp prior ∷ [] }) in
    enqueue w.now w.new_job (some rfp.id)
      (priority_for_new_job w.month_start account.id rfp.origin cap s') s'

abbrev pub on_prior :
    WebWorld → ℕ → Account → Rfp → Option ExtractionRun → Session → Reply × Session
on_prior w cap account rfp none s = (responded 303, s)
on_prior w cap account rfp (some prior) s =
    if is_over prior.stage
    then (responded 303, start_again w cap account rfp prior s)
    else (responded 303, s)

abbrev pub reprocess_rfp : WebWorld → ℕ → Disk → Account → Option Rfp → Session → Reply × Session
reprocess_rfp w cap disk account none s = (http_exception 404, s)
reprocess_rfp w cap disk account (some rfp) s =
    if has_source disk rfp.stored_path
    then on_prior w cap account rfp (newest_run rfp.id s) s
    else (http_exception 410, s)

unfoldable pub reprocess : WebWorld → ℕ → Disk → Account → String → Session → Reply × Session
unfolding get_rfp enqueue priority_for_new_job
reprocess w cap disk account rfp_id s =
    reprocess_rfp w cap disk account (get_rfp w s rfp_id account) s

abbrev pub upload_reply : Result Failure Rfp × Disk × Session → Reply × Disk × Session
upload_reply (returned rfp, disk, s) = (responded 303, disk, s)
upload_reply (raised (rejection status detail), disk, s) = (responded status, disk, s)
upload_reply (raised crash, disk, s) = (http_exception 500, disk, s)

abbrev pub upload_file :
    World → Settings → Account → Option Bytes → Bool → Disk → Session → Reply × Disk × Session
upload_file world settings account none retain disk s = (responded 422, disk, s)
upload_file world settings account (some bytes) retain disk s =
    upload_reply (process_upload world settings account bytes retain disk s)

abbrev pub with_limiter : Buckets → Reply × Disk × Session → Reply × Buckets × Disk × Session
with_limiter buckets (reply, disk, s) = (reply, buckets, disk, s)

-- `intake_upload`, of the form's file, if there is one. `key` is the limiter's for the account.
unfoldable pub intake_upload :
    World
    → Settings
    → (ticks key : ℕ) → Account
    → Option Bytes
    → Bool
    → Buckets
    → Disk
    → Session
    → Reply × Buckets × Disk × Session
unfolding hit process_upload
intake_upload world settings ticks key account file retain buckets disk s =
    let ((allowed, retry_after), counted) = hit ticks key 10 3600 buckets in
    if allowed
    then with_limiter counted (upload_file world settings account file retain disk s)
    else (http_exception 429, counted, disk, s)

abbrev pub by_seq_asc : Requirement → Requirement → Bool
by_seq_asc r t = leb r.seq t.seq

abbrev pub rows_in_order : ℕ → Session → List Requirement
rows_in_order rfp_id s =
    sort_by by_seq_asc (keep (λ (r : Requirement). r.rfp_id == rfp_id) s.requirements)

abbrev pub all_checked : List Requirement → Bool
all_checked = all (λ r. is_some r.verified_at)

-- `_export_guard`: the rows, or the status of the exception.
abbrev pub guard_rows : ℕ → Account → Session → Option Rfp → Result ℕ (Rfp × List Requirement)
guard_rows now account s none = raised 404
guard_rows now account s (some rfp) =
    if not (is_entitled now s account.id rfp)
    then raised 403
    else if all_checked (rows_in_order rfp.id s)
    then returned (rfp, rows_in_order rfp.id s)
    else raised 409

unfoldable pub export_guard :
    WebWorld → Account → String → Session → Result ℕ (Rfp × List Requirement)
unfolding get_rfp is_entitled
export_guard w account rfp_id s = guard_rows w.now account s (get_rfp w s rfp_id account)

abbrev pub deliver :
    Account → Result ℕ (Rfp × List Requirement) → Session → Result ℕ (List Requirement) × Session
deliver account (raised status) s = (raised status, s)
deliver account (returned (rfp, rows)) s =
    (returned rows, audit Action.export_delivered (of_uuid rfp.id) (some account.id) s)

-- `export_xlsx` and `export_docx`, up to the writing of the file: the rows that are written.
unfoldable pub export_matrix :
    WebWorld → Account → String → Session → Result ℕ (List Requirement) × Session
unfolding export_guard
export_matrix w account rfp_id s = deliver account (export_guard w account rfp_id s) s
