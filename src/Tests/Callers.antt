-- ===== src/Tests/Callers.antt =====
-- app/core/security.py, app/web/routes_auth.py, routes_pages.py and routes_billing.py at concrete inputs.
use rfp_shred.Prelude.{
  All, String, Text, [], codes, false, none, refl, some, sort_by, true, ℕ, ◌++◌, ◌∷◌, ◌≡◌, ◌≢◌, ◌⊎◌,
}
use rfp_shred.Results.{returned}
use rfp_shred.Models.{Session, SessionRow, Account, ResetToken, Stage, empty_session}
use rfp_shred.RateLimit.{peek, Buckets}
use rfp_shred.Auth.Tokens.{
  verify_password, hash_token, reset_signature, parse_reset_token, make_reset_token,
}
use rfp_shred.Auth.RoundTrip.{parse_reset_token_sound, parse_reset_token-make}
use rfp_shred.Auth.Sessions.{csrf_matches, responded, rotate_session, WebContext, Reply}
use rfp_shred.Auth.Routes.{
  of_account, reset_password, find_token, auth_payload, change_password, login, AuthRequest,
  AuthWorld,
}
use rfp_shred.Auth.Guards.{login-IsLoggedIn, IsLoggedIn}
use rfp_shred.Auth.Resets.{reset_password_once, reset_password-IsReset, IsReset}
use rfp_shred.Web.Matrices.{get_rfp, export_guard, reprocess, export_matrix, WebWorld}
use rfp_shred.Web.Matrices.Access.{
  reprocess-IsRestarted, export_matrix-IsDelivered, IsDelivered, IsRestarted,
}
use rfp_shred.Tests.Samples.{unlocked_rfp, row, plant, silent_run, locked_rfp}
use rfp_shred.Pipeline.TextUtils.{text_eq}
use rfp_shred.Pipeline.TextUtils.Containment.{starts_with}
use rfp_shred.Billing.Gate.{is_entitled}
use rfp_shred.Tests.Codec.{codec, crypto}

abbrev made : Text × String
made = make_reset_token crypto (1 ∷ []) (2 ∷ []) (3 ∷ [])

parse_reset_token-make_example : parse_reset_token crypto made.0 (3 ∷ []) ≡ some (2 ∷ [], made.1)
parse_reset_token-make_example = parse_reset_token-make crypto codec (1 ∷ []) (2 ∷ []) (3 ∷ [])

parse_reset_token_sound_example :
    (a : Text) × (b : Text) × (made.0
      ≡ a ++ (46 ∷ (b ++ (46 ∷ reset_signature crypto a b (3 ∷ [])))))
    × (made.1 ≡ hash_token crypto made.0)
parse_reset_token_sound_example =
    parse_reset_token_sound crypto made.0 (3 ∷ []) (2 ∷ []) made.1 parse_reset_token-make_example

abbrev password : Text
password = codes "correct horse"

abbrev pub caller : Account
caller = record {
  id = 2;
  email = "a@b";
  pass_hash = password;
  is_staff = false;
  watch_naics = [];
  watch_set_asides = [];
}

abbrev anonymous : SessionRow
anonymous = record { id = 1; account_id = none; token_hash = "t"; csrf_token = "c"; expires_at = 9 }

abbrev ctx : WebContext
ctx = record { session_row = anonymous; account = none }

abbrev token_row : ResetToken
token_row = record { id = 4; account_id = 2; token_hash = "hash"; expires_at = 90; used_at = none }

abbrev site : Session
site = record empty_session {
  accounts = caller ∷ [];
  sessions = anonymous ∷ record anonymous { id = 5; account_id = some 2 } ∷ [];
  reset_tokens = token_row ∷ [];
}

abbrev req : AuthRequest
req = record {
  cross_site = false;
  origin = none;
  request_origin = "";
  configured_origin = "";
  is_form = true;
  csrf_token = some "c";
  wants_json = false;
  email = "a@b";
  password = password;
  token = made.0;
  signup_key = 0;
  login_key = 1;
  reset_key = 2;
}

abbrev world : AuthWorld
world = record {
  crypto = crypto;
  now = 50;
  ticks = 0;
  fresh = record { id = 7; token = 5 ∷ []; csrf_token = "d" };
  salt = [];
  random_part = 1 ∷ [];
  new_account = 3;
  new_token = 6;
  str_id = λ i. i ∷ [];
  app_secret = 3 ∷ [];
  dummy_hash = [];
}

abbrev no_buckets : Buckets
no_buckets k = none

abbrev logged_in : Session
logged_in = (rotate_session crypto 50 world.fresh ctx caller site).1

the_login : login world req ctx no_buckets site ≡ (responded 303, no_buckets, logged_in)
unfolding login peek auth_payload csrf_matches verify_password starts_with text_eq
the_login = refl

login-IsLoggedIn_example :
    ((Path ℕ 303 401) × (logged_in ≡ site)) ⊎ IsLoggedIn world req ctx no_buckets site logged_in
login-IsLoggedIn_example =
    login-IsLoggedIn world req ctx no_buckets no_buckets site logged_in 303 refl the_login

abbrev after_reset : Session
after_reset = change_password world req token_row caller site

the_payload : auth_payload req ctx ≡ true
unfolding auth_payload csrf_matches
the_payload = refl

the_token : find_token world (parse_reset_token crypto req.token (3 ∷ [])) site ≡ some token_row
unfolding make_reset_token
the_token = rw parse_reset_token-make_example refl

the_reset : reset_password world req ctx site ≡ (responded 303, after_reset)
unfolding reset_password make_reset_token
the_reset = rw (the_payload, the_token) refl

reset_password-IsReset_example :
    ((responded 303 ≢ responded 303) × (after_reset ≡ site)) ⊎ IsReset world req site after_reset
reset_password-IsReset_example =
    reset_password-IsReset world req ctx site after_reset (responded 303) the_reset

abbrev next_day : AuthWorld
next_day = record world { now = 60; ticks = 9 }

reset_password_once_example :
    (reset_password next_day req ctx after_reset ≡ (responded 410, after_reset))
    × ((r : IsReset world req site after_reset) × All
          (λ (x : SessionRow). of_account world r.account.id x.account_id ≡ false)
          after_reset.sessions)
reset_password_once_example =
    reset_password_once world next_day req req ctx ctx site after_reset refl refl the_reset refl
      the_payload

abbrev pub pages_world : WebWorld
pages_world = record {
  parse_uuid = λ t. some 1;
  now = 50;
  ticks = 0;
  month_start = 0;
  new_run = 7;
  new_job = 8;
}

abbrev shelf : Session
shelf = record empty_session { rfps = unlocked_rfp ∷ []; requirements = row 2 ∷ row 1 ∷ [] }

abbrev after_export : Session
after_export = (export_matrix pages_world caller "rfp-1" shelf).1

the_export :
    export_matrix pages_world caller "rfp-1" shelf ≡ (returned (row 1 ∷ row 2 ∷ []), after_export)
unfolding export_matrix export_guard get_rfp is_entitled sort_by
the_export = refl

export_matrix-IsDelivered_example :
    IsDelivered pages_world caller "rfp-1" shelf (row 1 ∷ row 2 ∷ [])
export_matrix-IsDelivered_example =
    export_matrix-IsDelivered pages_world caller "rfp-1" shelf after_export (row 1 ∷ row 2 ∷ [])
      the_export

abbrev pub done_plant : Session
done_plant = record plant {
  rfps = record locked_rfp { stored_path = some "incoming/1.pdf" } ∷ [];
  runs = record silent_run { stage = Stage.failed } ∷ [];
}

abbrev again : Reply × Session
again = reprocess pages_world 5 ("incoming/1.pdf" ∷ []) caller "rfp-1" done_plant

reprocess-IsRestarted_example :
    (again.1 ≡ done_plant) ⊎ IsRestarted pages_world caller "rfp-1" done_plant again.1
reprocess-IsRestarted_example =
    reprocess-IsRestarted pages_world 5 ("incoming/1.pdf" ∷ []) caller "rfp-1" done_plant again.1
      again.0 refl
