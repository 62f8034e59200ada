-- ===== src/Auth/Sessions.antt =====
-- app/web/deps.py: the session row of a request, and the transaction around its handler.
use rfp_shred.Prelude.{
  Bool, Option, String, Text, [], false, first, if◌then◌else◌, is_some, keep, ltb, map, none, not,
  some, str_eq, ℕ, ◌&&◌, ◌++◌, ◌+◌, ◌==◌, ◌∷◌,
}
use rfp_shred.Models.{Session, SessionRow, Account, days}
use rfp_shred.Auth.Tokens.{hash_token, Crypto}

-- `SESSION_TTL_DAYS`
abbrev pub session_ttl_days : ℕ
session_ttl_days = 7

abbrev pub session_expiry : ℕ → ℕ
session_expiry now = now + days session_ttl_days

-- What is drawn for a new session: its row's id, its token, and the token against forged requests.
pub record Fresh : Type 0 where
  pub id : ℕ
  pub token : Text
  pub csrf_token : String

-- `csrf_matches`: of an empty text as of a missing one. Here a text that is not ASCII, on which
-- `compare_digest` raises, does not match.
unfoldable pub csrf_matches : String → Option String → Bool
csrf_matches expected none = false
csrf_matches expected (some presented) = not (str_eq presented "") && str_eq expected presented

abbrev pub delete_session : ℕ → Session → Session
delete_session i s = record s { sessions = keep (λ (r : SessionRow). not (r.id == i)) s.sessions }

abbrev pub slide : (now i : ℕ) → Session → Session
slide now i s = record s {
  sessions =
      map
        (λ (r : SessionRow). if r.id == i then record r { expires_at = session_expiry now } else r)
        s.sessions;
}

abbrev pub on_row : ℕ → Option SessionRow → Session → Option SessionRow × Session
on_row now none s = (none, s)
on_row now (some row) s =
    if ltb row.expires_at now
    then (none, delete_session row.id s)
    else (some (record row { expires_at = session_expiry now }), slide now row.id s)

-- `WebContext`, without the database.
pub record WebContext : Type 0 where
  pub session_row : SessionRow
  pub account : Option Account

abbrev pub get_account : Option ℕ → Session → Option Account
get_account none s = none
get_account (some i) s = first (λ (a : Account). a.id == i) s.accounts

module _ (c : Crypto) where
  -- The cookie is `none` where it is missing or empty.
  unfoldable pub load_session_row : (now : ℕ) → Option Text → Session → Option SessionRow × Session
  load_session_row now none s = (none, s)
  load_session_row now (some token) s =
      on_row now (first (λ (r : SessionRow). str_eq r.token_hash (hash_token c token)) s.sessions) s

  abbrev pub new_session : ℕ → Fresh → Option ℕ → SessionRow
  new_session now fresh account_id = record {
    id = fresh.id;
    account_id = account_id;
    token_hash = hash_token c fresh.token;
    csrf_token = fresh.csrf_token;
    expires_at = session_expiry now;
  }

  abbrev pub add_session : SessionRow → Session → Session
  add_session row s = record s { sessions = s.sessions ++ row ∷ [] }

  abbrev pub context_of : ℕ → Fresh → Option SessionRow × Session → WebContext × Session
  context_of now fresh (none, s) =
      let row = new_session now fresh none in
      (record { session_row = row; account = none }, add_session row s)
  context_of now fresh (some row, s) =
      (record { session_row = row; account = get_account row.account_id s }, s)

  unfoldable pub web_context : (now : ℕ) → Fresh → Option Text → Session → WebContext × Session
  unfolding load_session_row
  web_context now fresh cookie s = context_of now fresh (load_session_row now cookie s)

  abbrev pub discard_anonymous : SessionRow → Option ℕ → Session → Session
  discard_anonymous row none s = delete_session row.id s
  discard_anonymous row (some i) s = s

  unfoldable pub rotate_session :
      (now : ℕ) → Fresh → WebContext → Account → Session → SessionRow × Session
  rotate_session now fresh ctx account s =
      let row = new_session now fresh (some account.id) in
      (row, discard_anonymous ctx.session_row ctx.session_row.account_id (add_session row s))

-- What a handler does: it responds with a status, or raises an `HTTPException` with one.
pub data Reply : Type 0 where
  responded http_exception : ℕ → Reply

-- `require_account` and `require_staff`.
abbrev pub require_account : WebContext → Option Reply
require_account ctx = if is_some ctx.account then none else some (http_exception 303)

abbrev staff_or_missing : Option Account → Option Reply
staff_or_missing none = some (http_exception 404)
staff_or_missing (some a) = if a.is_staff then none else some (http_exception 404)

abbrev pub require_staff : WebContext → Option Reply
require_staff ctx = staff_or_missing ctx.account

-- `csrf_protect`, of the token that the header, the JSON body or the form carries.
abbrev pub csrf_protect : WebContext → Option String → Option Reply
csrf_protect ctx token =
    if csrf_matches ctx.session_row.csrf_token token then none else some (http_exception 403)

-- `get_db`: what the handler did is committed, or forgotten where it raised.
abbrev pub commit : Session → Reply × Session → Reply × Session
commit before (responded status, s) = (responded status, s)
commit before (http_exception status, s) = (http_exception status, before)
