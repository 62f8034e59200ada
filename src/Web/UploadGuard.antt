-- ===== src/Web/UploadGuard.antt =====
-- app/web/upload_guard.py: the admission of upload bodies. The guarded application is a parameter, the
-- tree of what it does: it awaits messages, starts its response, returns or raises. Each of the two
-- critical sections under the lock is one step.
pub mod Admission
use rfp_shred.Prelude.{
  Bool, List, Option, [], all, any, false, if◌then◌else◌, leb, length, ltb, none, not, some, true,
  ℕ, ◌&&◌, ◌+◌, ◌-◌, ◌/◌, ◌==◌, ◌∷◌,
}

-- The exceptions that the guard tells apart, and groups of them. `others` is any other exception.
mutual
  pub data Exc : Type 0 where
    body_too_large others : Exc
    exception_group : Excs → Exc

  pub data Excs : Type 0 where
    no_more : Excs
    and_then : Exc → Excs → Excs

abbrev has_some : Excs → Bool
has_some no_more = false
has_some (and_then e es) = true

-- `_is_body_limit_failure`, and the same for all the members of a group.
unfoldable mutual
  pub is_body_limit_failure : Exc → Bool
  is_body_limit_failure body_too_large = true
  is_body_limit_failure others = false
  is_body_limit_failure (exception_group es) = has_some es && all_body_limit es

  pub all_body_limit : Excs → Bool
  all_body_limit no_more = true
  all_body_limit (and_then e es) = is_body_limit_failure e && all_body_limit es

-- A value of the header, as `int(...)` reads it.
pub data HeaderValue : Type 0 where
  number : ℕ → HeaderValue
  below_zero malformed : HeaderValue

abbrev trusted : HeaderValue → Option ℕ
trusted (number n) = some n
trusted below_zero = none
trusted malformed = none

-- `_content_length`, of the values of all headers of that name.
unfoldable pub content_length : List HeaderValue → Option ℕ
content_length [] = none
content_length (v ∷ []) = trusted v
content_length (v ∷ w ∷ vs) = none

-- A message that `receive` returns: a part of the body, of which only the length counts, or another.
pub data Message : Type 0 where
  body : ℕ → Message
  other : Message

-- The application. `receive` awaits a message and goes on with what it does next, or with what it
-- does when the guard raises instead.
pub data App : Type 0 where
  receive : App → App → App
  start_response : App → App
  finish : App
  fail : Exc → App

-- How the application ended: what it raised, whether its response had started, and how many bytes
-- of the body it was given.
pub record Ending : Type 0 where
  pub thrown : Option Exc
  pub response_started : Bool
  pub delivered : ℕ

module _ (max_request_bytes : ℕ) where
  -- The application behind `guarded_receive` and `tracked_send`. Behind the messages of the body come
  -- others, such as the one of a disconnect.
  unfoldable pub run : App → List Message → (received delivered : ℕ) → Bool → Ending
  run finish ms received delivered started = record {
    thrown = none;
    response_started = started;
    delivered = delivered;
  }
  run (fail e) ms received delivered started = record {
    thrown = some e;
    response_started = started;
    delivered = delivered;
  }
  run (start_response next) ms received delivered started = run next ms received delivered true
  run (receive next refused) [] received delivered started = run next [] received delivered started
  run (receive next refused) (other ∷ ms) received delivered started =
      run next ms received delivered started
  run (receive next refused) (body n ∷ ms) received delivered started =
      let given = run next ms (received + n) (delivered + n) started in
      let kept = run refused ms (received + n) delivered started in
      if ltb max_request_bytes (received + n) then kept else given

pub data Answer : Type 0 where
  -- the application's own response
  passed : Answer
  -- `_send_problem` with this status
  problem : ℕ → Answer
  raised : Exc → Answer

abbrev pub answer_of : Option Exc → Bool → Answer
answer_of none started = passed
answer_of (some e) started =
    if not (is_body_limit_failure e) then raised e else if started then raised e else problem 413

-- The middleware: its bounds, and `_active`, the number of bodies in flight.
pub record Guard : Type 0 where
  pub max_request_bytes : ℕ
  pub max_concurrent : ℕ

-- `_try_admit`
unfoldable pub try_admit : Guard → ℕ → Bool × ℕ
try_admit guard active =
    if leb guard.max_concurrent active then (false, active) else (true, active + 1)

-- `_release`. The count is positive here: each release follows an admission.
abbrev pub release : ℕ → ℕ
release active = active - 1

-- `scope["type"] == "http"`, the method and the path as `_guards` tests them, and the header.
pub record Request : Type 0 where
  pub is_http : Bool
  pub is_post : Bool
  pub is_upload_path : Bool
  pub content_lengths : List HeaderValue

abbrev pub over : ℕ → Option ℕ → Bool
over bound none = false
over bound (some n) = ltb bound n

abbrev admitted : Bool × ℕ → Guard → App → List Message → Answer × ℕ
admitted (false, active) guard app ms = (problem 503, active)
admitted (true, active) guard app ms =
    let ending = run guard.max_request_bytes app ms 0 0 false in
    (answer_of ending.thrown ending.response_started, release active)

-- `__call__`, for a request that is not interrupted by others.
unfoldable pub call : Guard → Request → App → List Message → ℕ → Answer × ℕ
unfolding content_length try_admit run
call guard request app ms active =
    if not (request.is_http && (request.is_post && request.is_upload_path))
    then ((let ending = run_unguarded app in answer_unguarded ending), active)
    else if over guard.max_request_bytes (content_length request.content_lengths)
    then (problem 413, active)
    else admitted (try_admit guard active) guard app ms
  where
    run_unguarded : App → Option Exc
    run_unguarded finish = none
    run_unguarded (fail e) = some e
    run_unguarded (start_response next) = run_unguarded next
    run_unguarded (receive next refused) = run_unguarded next

    answer_unguarded : Option Exc → Answer
    answer_unguarded none = passed
    answer_unguarded (some e) = raised e
