-- ===== src/Auth/Resets.antt =====
-- app/web/routes_auth.py: what a reset link is good for.
use rfp_shred.Prelude.{
  keep-fails, ==_refl, All, Bool, Bool-cases, List, Option, String, Text, [], ap, arith, false,
  false≢true, first, first-map, List, ==_iff, subst, if◌then◌else◌, inl, inr, keep, map, none, not,
  refl, some, str_eq, sym, true, ℕ, ◌==◌, ◌∙◌, ◌∷◌, ◌≡◌, ◌≢◌, ◌⊎◌,
}
use rfp_shred.Models.{Session, SessionRow, Account, ResetToken}
use rfp_shred.Auth.Tokens.{compare_raises, parse_reset_token, hash_password}
use rfp_shred.Auth.Sessions.{http_exception, responded, WebContext, Reply}
use rfp_shred.Auth.Routes.{
  on_account, of_account, check_password_strength, change_password, auth_payload, is_spent,
  on_token, reset_password, find_token, AuthRequest, AuthWorld,
}

abbrev sees_other : Reply → Bool
sees_other (responded status) = status == 303
sees_other (http_exception status) = false

refused :
    (r reply : Reply) (s s' : Session)
    → sees_other r ≡ false
    → Path (Reply × Session) (r, s) (reply, s')
    → (reply ≢ responded 303) × (s' ≡ s)
refused r reply s s' other h =
    (λ e. false≢true (sym other ∙ ap sees_other (ap (λ p. p.0) h ∙ e)), sym (ap (λ p. p.1) h))

module _ (w : AuthWorld) where
  -- What a successful reset has seen and done.
  pub record IsReset (req : AuthRequest) (s s' : Session) : Type 0 where
    pub row : ResetToken
    pub account : Account
    pub is_comparable : compare_raises req.token ≡ false
    pub found : find_token w (parse_reset_token w.crypto req.token w.app_secret) s ≡ some row
    pub unspent : is_spent w row ≡ false
    pub strong : check_password_strength req.password ≡ true
    pub named : first (λ (a : Account). a.id == row.account_id) s.accounts ≡ some account
    pub changed : s' ≡ change_password w req row account s
    pub rehashed :
        first (λ (a : Account). a.id == row.account_id) s'.accounts
        ≡ some (record account { pass_hash = hash_password w.crypto w.salt req.password })
    pub others :
        keep (λ (a : Account). not (a.id == account.id)) s'.accounts
        ≡ keep (λ (a : Account). not (a.id == account.id)) s.accounts
    pub marked :
        All (λ (t : ResetToken). (t.id ≢ row.id) ⊎ (t.used_at ≡ some w.now)) s'.reset_tokens
    pub logged_out :
        All (λ (x : SessionRow). of_account w account.id x.account_id ≡ false) s'.sessions

  change_password-rehashed :
      (req : AuthRequest) (row : ResetToken) (account : Account) (s : Session)
      → first (λ (a : Account). a.id == row.account_id) s.accounts ≡ some account
      → first
          (λ (a : Account). a.id == row.account_id)
          (change_password w req row account s).accounts
        ≡ some (record account { pass_hash = hash_password w.crypto w.salt req.password })
  change_password-rehashed req row account s named =
      let set = λ (a : Account).
        if a.id == account.id
        then record a { pass_hash = hash_password w.crypto w.salt req.password }
        else a in
      first-map (λ (a : Account). a.id == row.account_id) set s.accounts account (λ a. ground arith)
        named
      ∙ rw (==_refl account.id) refl

  keep-rehashed :
      (i : ℕ) (h : Text) (accounts : List Account)
      → keep
          (λ (a : Account). not (a.id == i))
          (map (λ (a : Account). if a.id == i then record a { pass_hash = h } else a) accounts)
        ≡ keep (λ (a : Account). not (a.id == i)) accounts
  keep-rehashed i h [] = refl
  keep-rehashed i h (a ∷ accounts) = elim (Bool-cases (a.id == i)) [
    | inl e ↦ rw (e, e) (keep-rehashed i h accounts)
    | inr e ↦ rw (e, e) (ap (λ r. a ∷ r) (keep-rehashed i h accounts))
  ]

  used_tokens :
      (i : ℕ) (tokens : List ResetToken)
      → All
          (λ (t : ResetToken). (t.id ≢ i) ⊎ (t.used_at ≡ some w.now))
          (map
            (λ (r : ResetToken). if r.id == i then record r { used_at = some w.now } else r)
            tokens)
  used_tokens i [] = tt
  used_tokens i (t ∷ tokens) = elim (Bool-cases (t.id == i)) [
    | inl e ↦ rw e (inr refl, used_tokens i tokens)
    | inr e ↦ rw e (inl (λ same. ground (arith, ==_iff t.id i)), used_tokens i tokens)
  ]

  on_token-IsReset :
      (req : AuthRequest) (s s' : Session) (reply : Reply) (o : Option ResetToken)
      → compare_raises req.token ≡ false
      → find_token w (parse_reset_token w.crypto req.token w.app_secret) s ≡ o
      → on_token w req o s ≡ (reply, s')
      → ((reply ≢ responded 303) × (s' ≡ s)) ⊎ IsReset req s s'
  on_token-IsReset req s s' reply none compares found h =
      inl (refused (responded 410) reply s s' refl h)
  on_token-IsReset req s s' reply (some row) compares found h = elim (Bool-cases (is_spent w row)) [
    | inl spent ↦
        let same : on_token w req (some row) s ≡ (responded 410, s) = rw spent refl in
        let out = sym same ∙ h in inl (refused (responded 410) reply s s' refl out)
    | inr live ↦ elim (Bool-cases (check_password_strength req.password)) [
      | inr weak ↦
          let same : on_token w req (some row) s ≡ (responded 422, s) = rw (live, weak) refl in
          let out = sym same ∙ h in inl (refused (responded 422) reply s s' refl out)
      | inl strong ↦
          let a = first (λ (a : Account). a.id == row.account_id) s.accounts in
          let same : on_token w req (some row) s ≡ on_account w req row a s =
            rw (live, strong) refl in
          for_account live strong a refl (sym same ∙ h)
    ]
  ]
    where
      for_account :
          is_spent w row ≡ false
          → check_password_strength req.password ≡ true
          → (a : Option Account) → first (λ (a : Account). a.id == row.account_id) s.accounts ≡ a
          → on_account w req row a s ≡ (reply, s')
          → ((reply ≢ responded 303) × (s' ≡ s)) ⊎ IsReset req s s'
      for_account live strong none named out = inl (refused (responded 410) reply s s' refl out)
      for_account live strong (some account) named out =
          let changed : s' ≡ change_password w req row account s = sym (ap (λ p. p.1) out) in
          inr (record {
            row = row;
            account = account;
            is_comparable = compares;
            found = found;
            unspent = live;
            strong = strong;
            named = named;
            changed = changed;
            rehashed = rw changed (change_password-rehashed req row account s named);
            others =
                rw changed (
                  keep-rehashed account.id (hash_password w.crypto w.salt req.password) s.accounts);
            marked = rw changed (used_tokens row.id s.reset_tokens);
            logged_out =
                rw changed (
                  keep-fails (λ (x : SessionRow). of_account w account.id x.account_id) s.sessions);
          })

  -- A reset whose link is forged, unknown, used or expired, or whose password is too short, leaves the
  -- tables alone, whatever it replies. Any other one had an unspent token: the account of the token has
  -- the hash of the new password, every other account is the same, the token is marked as used, and no
  -- session of the account is left.
  pub reset_password-IsReset :
      (req : AuthRequest) (ctx : WebContext) (s s' : Session) (reply : Reply)
      → reset_password w req ctx s ≡ (reply, s')
      → ((reply ≢ responded 303) × (s' ≡ s)) ⊎ IsReset req s s'
  unfolding reset_password
  reset_password-IsReset req ctx s s' reply h = elim (Bool-cases (auth_payload req ctx)) [
    | inr bad ↦
        let same : reset_password w req ctx s ≡ (http_exception 403, s) = rw bad refl in
        let out = sym same ∙ h in inl (refused (http_exception 403) reply s s' refl out)
    | inl fine ↦ elim (Bool-cases (compare_raises req.token)) [
      | inl raises ↦
          let same : reset_password w req ctx s ≡ (http_exception 500, s) =
            rw (fine, raises) refl in
          let out = sym same ∙ h in inl (refused (http_exception 500) reply s s' refl out)
      | inr compares ↦
          let t = find_token w (parse_reset_token w.crypto req.token w.app_secret) s in
          let same : reset_password w req ctx s ≡ on_token w req t s = rw (fine, compares) refl in
          on_token-IsReset req s s' reply t compares refl (sym same ∙ h)
    ]
  ]

  spent_again :
      (later : AuthWorld) (p : Option (Text × String)) (req again : AuthRequest) (row : ResetToken)
      (account : Account) (s : Session)
      → find_token w p s ≡ some row
      → on_token later again
          (find_token later p (change_password w req row account s))
          (change_password w req row account s)
        ≡ (responded 410, change_password w req row account s)
  spent_again later none req again row account s found = cc
  spent_again later (some (i, h)) req again row account s found =
      let mark =
        λ (r : ResetToken). if r.id == row.id then record r { used_at = some w.now } else r in
      let marked : first (λ (r : ResetToken). str_eq r.token_hash h) (map mark s.reset_tokens)
          ≡ some (mark row) =
        first-map (λ (r : ResetToken). str_eq r.token_hash h) mark s.reset_tokens row (same_hash h)
          found in
      rw (marked, ==_refl row.id) refl
    where
      same_hash :
          (h : String) (r : ResetToken)
          → str_eq (if r.id == row.id then record r { used_at = some w.now } else r).token_hash h
            ≡ str_eq r.token_hash h
      same_hash h r = ground arith

  -- A reset link works once: after a reset that succeeded, the same token is answered with 410, whoever
  -- presents it and at whatever time, under the same secret, and nothing changes; and no session is
  -- left of the account that the token's row names.
  pub reset_password_once :
      (later : AuthWorld) (req again : AuthRequest) (ctx ctx' : WebContext) (s s' : Session)
      → later.crypto ≡ w.crypto
      → later.app_secret ≡ w.app_secret
      → reset_password w req ctx s ≡ (responded 303, s')
      → again.token ≡ req.token
      → auth_payload again ctx' ≡ true
      → (reset_password later again ctx' s' ≡ (responded 410, s'))
        × ((r : IsReset req s s') × All
              (λ (x : SessionRow). of_account w r.account.id x.account_id ≡ false)
              s'.sessions)
  unfolding reset_password
  reset_password_once later req again ctx ctx' s s' same_crypto same_secret h same_token fine =
      let before = parse_reset_token w.crypto req.token w.app_secret in
      let parsed : parse_reset_token later.crypto again.token later.app_secret ≡ before = cc in
      elim (reset_password-IsReset req ctx s s' (responded 303) h) [
        | inl out ↦ absurd (out.0 refl)
        | inr r ↦
            let answers : reset_password later again ctx' s'
                ≡ on_token later again
                    (find_token later (parse_reset_token later.crypto again.token later.app_secret)
                      s')
                    s' =
              rw (fine, ap compare_raises same_token ∙ r.is_comparable) refl in
            (
              answers
                  ∙ ap (λ p. on_token later again (find_token later p s') s') parsed
                  ∙ subst
                      (λ t. on_token later again (find_token later before t) t ≡ (responded 410, t))
                      (sym r.changed)
                      (spent_again later before req again r.row r.account s r.found),
              (
                r,
                rw r.changed (
                    keep-fails (λ (x : SessionRow). of_account w r.account.id x.account_id)
                      s.sessions),
              ),
            )
      ]
