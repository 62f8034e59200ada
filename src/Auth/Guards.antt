-- ===== src/Auth/Guards.antt =====
-- app/web/routes_auth.py: who gets a session.
use rfp_shred.Prelude.{
  keep-fails, All, Bool, Bool-cases, Option, [], ap, false, Memᴰ, Mem-last, Mem-keep, is_some, ◌+◌,
  ◌++◌, inl, inr, none, not, refl, some, sym, true, ℕ, ◌==◌, ◌∙◌, ◌∷◌, ◌≡◌, ◌⊎◌,
}
use rfp_shred.Models.{Session, SessionRow, Account, days}
use rfp_shred.RateLimit.{Buckets, peek}
use rfp_shred.Auth.Tokens.{verify_password, hash_token}
use rfp_shred.Auth.Sessions.{
  http_exception, rotate_session, discard_anonymous, add_session, new_session, responded,
  WebContext,
}
use rfp_shred.Auth.Routes.{
  on_password, hash_or_dummy, auth_payload, login, by_email, AuthRequest, AuthWorld,
}

module _ (w : AuthWorld) where
  -- What lets a caller in: the limiter has room, and the password is the one of the account with that
  -- email.
  pub record IsLoggedIn (req : AuthRequest) (ctx : WebContext) (buckets : Buckets) (s s' : Session)
      : Type 0 where
    pub has_room : (peek w.ticks req.login_key 10 300 buckets).0 ≡ true
    pub account : Account
    pub named : by_email req.email s ≡ some account
    pub verified : verify_password w.crypto req.password account.pass_hash ≡ true
    pub bound : s' ≡ (rotate_session w.crypto w.now w.fresh ctx account s).1
    pub session : SessionRow
    pub stored : Memᴰ session s'.sessions
    pub of_caller : session.account_id ≡ some account.id
    pub by_token : session.token_hash ≡ hash_token w.crypto w.fresh.token
    pub until : session.expires_at ≡ w.now + days 7
    pub discarded :
        (is_some ctx.session_row.account_id ≡ true)
        ⊎ All (λ (r : SessionRow). (r.id == ctx.session_row.id) ≡ false) s'.sessions
    pub same_accounts : s'.accounts ≡ s.accounts

  -- What the discarding of an anonymous session leaves: the new row, and the accounts.
  discard-stored :
      (ctx : WebContext) (row : SessionRow) (i : Option ℕ) (s : Session)
      → (row.id == ctx.session_row.id) ≡ false
      → let s' = discard_anonymous w.crypto ctx.session_row i (add_session w.crypto row s) in
        Memᴰ row s'.sessions
        × (((is_some i ≡ true)
              ⊎ All (λ (r : SessionRow). (r.id == ctx.session_row.id) ≡ false) s'.sessions)
            × (s'.accounts ≡ s.accounts))
  discard-stored ctx row none s fresh = (
    Mem-keep (λ (r : SessionRow). not (r.id == ctx.session_row.id)) row _ (rw fresh refl)
        (Mem-last row s.sessions),
    (
      inr (keep-fails (λ (r : SessionRow). r.id == ctx.session_row.id) (s.sessions ++ row ∷ [])),
      refl,
    ),
  )
  discard-stored ctx row (some i) s fresh = (Mem-last row s.sessions, (inl refl, refl))

  on_password-IsLoggedIn :
      (req : AuthRequest) (ctx : WebContext) (buckets buckets' : Buckets) (s s' : Session)
      (status : ℕ) (ok : Bool) (o : Option Account)
      → (w.fresh.id == ctx.session_row.id) ≡ false
      → (peek w.ticks req.login_key 10 300 buckets).0 ≡ true
      → by_email req.email s ≡ o
      → verify_password w.crypto req.password (hash_or_dummy w o) ≡ ok
      → on_password w req ctx ok o buckets s ≡ (responded status, buckets', s')
      → ((status ≡ 401) × (s' ≡ s)) ⊎ IsLoggedIn req ctx buckets s s'
  unfolding rotate_session
  on_password-IsLoggedIn req ctx buckets buckets' s s' status true none fresh room named ok h =
      inl
        (let one : responded 401 ≡ responded status = ap (λ p. p.0) h in cc, sym (ap (λ p. p.2) h))
  on_password-IsLoggedIn req ctx buckets buckets' s s' status false o fresh room named ok h =
      inl
        (let one : responded 401 ≡ responded status = ap (λ p. p.0) h in cc, sym (ap (λ p. p.2) h))
  on_password-IsLoggedIn req ctx buckets buckets' s s' status true (some a) fresh room named ok h =
      let bound : s' ≡ (rotate_session w.crypto w.now w.fresh ctx a s).1 = sym (ap (λ p. p.2) h) in
      let row = new_session w.crypto w.now w.fresh (some a.id) in
      let (stored, (discarded, same)) = discard-stored ctx row ctx.session_row.account_id s fresh in
      inr (record {
        has_room = room;
        account = a;
        named = named;
        verified = ok;
        bound = bound;
        session = row;
        stored = rw bound stored;
        of_caller = refl;
        by_token = refl;
        until = refl;
        discarded = rw bound discarded;
        same_accounts = rw bound same;
      })

  -- A log-in that responds either answers 401 and leaves the tables alone, or the limiter had room and
  -- the password is that of the account with the email; then a session of this account is stored, with
  -- the hash of the new token and for seven days, an anonymous session of the caller is gone, and the
  -- accounts are the same. The id of the new session is not that of the caller's.
  pub login-IsLoggedIn :
      (req : AuthRequest) (ctx : WebContext) (buckets buckets' : Buckets) (s s' : Session)
      (status : ℕ)
      → (w.fresh.id == ctx.session_row.id) ≡ false
      → login w req ctx buckets s ≡ (responded status, buckets', s')
      → ((status ≡ 401) × (s' ≡ s)) ⊎ IsLoggedIn req ctx buckets s s'
  unfolding login
  login-IsLoggedIn req ctx buckets buckets' s s' status fresh h =
      elim (Bool-cases (peek w.ticks req.login_key 10 300 buckets).0) [
        | inr full ↦
            let same : login w req ctx buckets s ≡ (http_exception 429, buckets, s) =
              rw full refl in
            let no : http_exception 429 ≡ responded status = ap (λ p. p.0) (sym same ∙ h) in cc
        | inl room ↦ elim (Bool-cases (auth_payload req ctx)) [
          | inr bad ↦
              let same : login w req ctx buckets s ≡ (http_exception 403, buckets, s) =
                rw (room, bad) refl in
              let no : http_exception 403 ≡ responded status = ap (λ p. p.0) (sym same ∙ h) in cc
          | inl fine ↦
              let o = by_email req.email s in
              let ok = verify_password w.crypto req.password (hash_or_dummy w o) in
              let same : login w req ctx buckets s ≡ on_password w req ctx ok o buckets s =
                rw (room, fine) refl in
              on_password-IsLoggedIn req ctx buckets buckets' s s' status ok o fresh room refl refl
                (sym same ∙ h)
        ]
      ]
