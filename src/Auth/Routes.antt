-- ===== src/Auth/Routes.antt =====
-- app/web/routes_auth.py: sign-up, log-in, log-out and the reset of a password. The limiter's state is
-- beside the tables. The text of a page is left out, its status is kept.
use rfp_shred.Prelude.{
  Bool, Option, String, Text, [], any, codes, false, first, if◌then◌else◌, is_some, keep, leb,
  length, ltb, map, none, not, some, str_eq, true, ℕ, ◌&&◌, ◌++◌, ◌+◌, ◌==◌, ◌||◌, ◌∷◌,
}
use rfp_shred.Models.{of_uuid, Session, SessionRow, Account, ResetToken, Action, audit, seconds}
use rfp_shred.RateLimit.{Buckets, hit, peek}
use rfp_shred.Intake.Files.{Bytes}
use rfp_shred.Auth.Tokens.{
  compare_raises, parse_reset_token, make_reset_token, verify_password, hash_password, Crypto,
}
use rfp_shred.Auth.Sessions.{
  delete_session, http_exception, rotate_session, responded, csrf_matches, Fresh, WebContext, Reply,
}

-- What of a request the handlers read. The email is stripped and in lower case, the origins without a
-- slash at the end; the limiter's keys are those of the client's address and of the email.
pub record AuthRequest : Type 0 where
  pub cross_site : Bool
  pub origin : Option String
  pub request_origin : String
  pub configured_origin : String
  pub is_form : Bool
  pub csrf_token : Option String
  pub wants_json : Bool
  pub email : String
  pub password : Text
  pub token : Text
  pub signup_key : ℕ
  pub login_key : ℕ
  pub reset_key : ℕ

-- The clock, what is drawn, and the texts of ids and settings.
pub record AuthWorld : Type 0 where
  pub crypto : Crypto
  pub now : ℕ
  -- the limiter's clock
  pub ticks : ℕ
  pub fresh : Fresh
  pub salt : Bytes
  pub random_part : Bytes
  pub new_account : ℕ
  pub new_token : ℕ
  pub str_id : ℕ → Text
  pub app_secret : Text
  pub dummy_hash : Text

abbrev foreign : AuthRequest → Option String → Bool
foreign req none = false
foreign req (some origin) =
    not (str_eq origin req.request_origin || str_eq origin req.configured_origin)

-- `_same_origin`: whether it returns.
abbrev pub same_origin : AuthRequest → Bool
same_origin req = not req.cross_site && not (foreign req req.origin)

-- `_auth_payload`: whether it returns.
unfoldable pub auth_payload : AuthRequest → WebContext → Bool
unfolding csrf_matches
auth_payload req ctx =
    same_origin req && (not req.is_form || csrf_matches ctx.session_row.csrf_token req.csrf_token)

-- `check_password_strength`
abbrev pub check_password_strength : Text → Bool
check_password_strength password = leb 12 (length password)

abbrev pub by_email : String → Session → Option Account
by_email email s = first (λ (a : Account). str_eq a.email email) s.accounts

-- `not email or "@" not in email`
abbrev pub bad_email : String → Bool
bad_email email = str_eq email "" || not (any (λ c. c == 64) (codes email))

abbrev pub redirect_or : AuthRequest → ℕ → Reply
redirect_or req status = responded (if req.wants_json then status else 303)

-- A handler's outcome: its reply, the limiter and the tables.
abbrev pub Outcome : Type 0
Outcome = Reply × Buckets × Session

module _ (w : AuthWorld) where
  abbrev pub new_account : AuthRequest → Account
  new_account req = record {
    id = w.new_account;
    email = req.email;
    pass_hash = hash_password w.crypto w.salt req.password;
    is_staff = false;
    watch_naics = [];
    watch_set_asides = [];
  }

  abbrev pub register : AuthRequest → WebContext → Session → Session
  register req ctx s =
      (rotate_session w.crypto w.now w.fresh ctx (new_account req)
        (record s { accounts = s.accounts ++ new_account req ∷ [] })).1

  abbrev pub signup_form : AuthRequest → WebContext → Session → Reply × Session
  signup_form req ctx s =
      if bad_email req.email
      then (responded 422, s)
      else if not (check_password_strength req.password)
      then (responded 422, s)
      else if is_some (by_email req.email s)
      then (responded 409, s)
      else (redirect_or req 201, register req ctx s)

  abbrev pub with_buckets : Buckets → Reply × Session → Outcome
  with_buckets buckets (reply, s) = (reply, buckets, s)

  unfoldable pub signup : AuthRequest → WebContext → Buckets → Session → Outcome
  unfolding hit auth_payload rotate_session hash_password
  signup req ctx buckets s =
      let ((allowed, retry_after), counted) = hit w.ticks req.signup_key 5 3600 buckets in
      if not allowed
      then (http_exception 429, counted, s)
      else if not (auth_payload req ctx)
      then (http_exception 403, counted, s)
      else with_buckets counted (signup_form req ctx s)

  abbrev pub hash_or_dummy : Option Account → Text
  hash_or_dummy none = w.dummy_hash
  hash_or_dummy (some a) = a.pass_hash

  -- `ok`, and what follows it.
  abbrev pub on_password :
      AuthRequest → WebContext → Bool → Option Account → Buckets → Session → Outcome
  on_password req ctx true (some account) buckets s =
      (redirect_or req 200, buckets, (rotate_session w.crypto w.now w.fresh ctx account s).1)
  on_password req ctx true none buckets s =
      (responded 401, (hit w.ticks req.login_key 10 300 buckets).1, s)
  on_password req ctx false account buckets s =
      (responded 401, (hit w.ticks req.login_key 10 300 buckets).1, s)

  unfoldable pub login : AuthRequest → WebContext → Buckets → Session → Outcome
  unfolding peek hit auth_payload verify_password rotate_session
  login req ctx buckets s =
      let account = by_email req.email s in
      if not (peek w.ticks req.login_key 10 300 buckets).0
      then (http_exception 429, buckets, s)
      else if not (auth_payload req ctx)
      then (http_exception 403, buckets, s)
      else on_password req ctx (verify_password w.crypto req.password (hash_or_dummy account))
          account buckets s

  -- The session row of the context is deleted.
  unfoldable pub logout : AuthRequest → WebContext → Session → Reply × Session
  unfolding csrf_matches
  logout req ctx s =
      if csrf_matches ctx.session_row.csrf_token req.csrf_token
      then (responded 303, delete_session ctx.session_row.id s)
      else (http_exception 403, s)

  -- `RESET_TOKEN_TTL_HOURS` is one.
  abbrev pub reset_token_expiry : ℕ
  reset_token_expiry = w.now + seconds 3600

  abbrev pub send_token : Option Account → Session → Session
  send_token none s = s
  send_token (some a) s =
      let (token, token_hash) =
        make_reset_token w.crypto w.random_part (w.str_id a.id) w.app_secret in
      record s {
        reset_tokens =
            s.reset_tokens
            ++ record {
              id = w.new_token;
              account_id = a.id;
              token_hash = token_hash;
              expires_at = reset_token_expiry;
              used_at = none;
            }
              ∷ [];
        outbox = s.outbox ++ a.email ∷ [];
      }

  unfoldable pub forgot_password : AuthRequest → WebContext → Buckets → Session → Outcome
  unfolding hit auth_payload make_reset_token
  forgot_password req ctx buckets s =
      let ((allowed, retry_after), counted) = hit w.ticks req.reset_key 3 3600 buckets in
      if not (auth_payload req ctx)
      then (http_exception 403, buckets, s)
      else if not allowed
      then (http_exception 429, counted, s)
      else (responded 200, counted, send_token (by_email req.email s) s)

  abbrev pub find_token : Option (Text × String) → Session → Option ResetToken
  find_token none s = none
  find_token (some (account_id, h)) s =
      first (λ (r : ResetToken). str_eq r.token_hash h) s.reset_tokens

  -- `row.used_at is not None or row.expires_at < now`
  abbrev pub is_spent : ResetToken → Bool
  is_spent row = is_some row.used_at || ltb row.expires_at w.now

  abbrev pub of_account : ℕ → Option ℕ → Bool
  of_account i none = false
  of_account i (some j) = j == i

  -- The assignments of a reset: to the account, to the token's row, and the deletion of the sessions.
  abbrev pub change_password : AuthRequest → ResetToken → Account → Session → Session
  change_password req row account s =
      audit Action.password_reset (of_uuid account.id) (some account.id) (record s {
        accounts =
            map
              (λ (a : Account).
                if a.id == account.id
                then record a { pass_hash = hash_password w.crypto w.salt req.password }
                else a)
              s.accounts;
        reset_tokens =
            map
              (λ (r : ResetToken). if r.id == row.id then record r { used_at = some w.now } else r)
              s.reset_tokens;
        sessions = keep (λ (r : SessionRow). not (of_account account.id r.account_id)) s.sessions;
      })

  abbrev pub on_account : AuthRequest → ResetToken → Option Account → Session → Reply × Session
  on_account req row none s = (responded 410, s)
  on_account req row (some account) s = (responded 303, change_password req row account s)

  abbrev pub on_token : AuthRequest → Option ResetToken → Session → Reply × Session
  on_token req none s = (responded 410, s)
  on_token req (some row) s =
      if is_spent row
      then (responded 410, s)
      else if not (check_password_strength req.password)
      then (responded 422, s)
      else on_account req row (first (λ (a : Account). a.id == row.account_id) s.accounts) s

  unfoldable pub reset_password : AuthRequest → WebContext → Session → Reply × Session
  unfolding auth_payload parse_reset_token compare_raises hash_password
  reset_password req ctx s =
      if not (auth_payload req ctx)
      then (http_exception 403, s)
      else if compare_raises req.token
      then (http_exception 500, s)
      else on_token req (find_token (parse_reset_token w.crypto req.token w.app_secret) s) s
