-- ===== src/Web/Account/Links.antt =====
-- app/web/routes_account.py: what a deletion leaves.
use rfp_shred.Prelude.{
  ==_iff, ==_refl, All, Bool, Bool-cases, List, [], any, ap, arith, false, inl, inr, keep, not,
  refl, true, ℕ, ◌==◌, ◌∙◌, ◌∷◌, ◌≡◌,
}
use rfp_shred.Models.{Session, Account, Rfp, ExtractionRun, Requirement}
use rfp_shred.Web.Account.{delete_account, owns, is_account, delete_rfps}

abbrev pub has_rfp : ℕ → List Rfp → Bool
has_rfp i = any (λ (r : Rfp). r.id == i)

-- Each run and each requirement is of a solicitation that exists, and each solicitation of an account.
pub record IsLinked (s : Session) : Type 0 where
  pub runs_linked : All (λ (r : ExtractionRun). has_rfp r.rfp_id s.rfps ≡ true) s.runs
  pub rows_linked : All (λ (r : Requirement). has_rfp r.rfp_id s.rfps ≡ true) s.requirements
  pub rfps_linked :
      All (λ (r : Rfp). any (λ (a : Account). a.id == r.account_id) s.accounts ≡ true) s.rfps

any-keep :
    (gone : ℕ → Bool) (i : ℕ) (rfps : List Rfp)
    → has_rfp i rfps ≡ true
    → gone i ≡ false
    → has_rfp i (keep (λ (r : Rfp). not (gone r.id)) rfps) ≡ true
any-keep gone i [] h g = h
any-keep gone i (r ∷ rs) h g = elim (Bool-cases (r.id == i)) [
  | inl e ↦ let same : gone r.id ≡ false = ap gone ((==_iff r.id i).0 e) ∙ g in rw same (rw e refl)
  | inr e ↦
      let later : has_rfp i rs ≡ true = rw e at h in
      elim (Bool-cases (gone r.id)) [
        | inl b ↦ rw b (any-keep gone i rs later g)
        | inr b ↦ rw b (rw e (any-keep gone i rs later g))
      ]
]

-- What is kept of a list whose elements satisfy `P` satisfies `Q`, where the test and `P` give `Q`.
All-kept {ℓ κ μ} :
    {A : Type ℓ} (test : A → Bool) (P : A → Type κ) (Q : A → Type μ) (xs : List A)
    → ((x : A) → test x ≡ true → P x → Q x)
    → All P xs
    → All Q (keep test xs)
All-kept test P Q [] f a = tt
All-kept test P Q (x ∷ xs) f a = elim (Bool-cases (test x)) [
  | inl e ↦ rw e (f x e a.0, All-kept test P Q xs f a.1)
  | inr e ↦ rw e (All-kept test P Q xs f a.1)
]

kept_here : (gone : ℕ → Bool) (i : ℕ) → not (gone i) ≡ true → gone i ≡ false
kept_here gone i h = ground arith

delete_rfps-IsLinked : (gone : ℕ → Bool) (s : Session) → IsLinked s → IsLinked (delete_rfps gone s)
unfolding delete_rfps
delete_rfps-IsLinked gone s l = record {
  runs_linked =
      All-kept (λ (r : ExtractionRun). not (gone r.rfp_id))
        (λ (r : ExtractionRun). has_rfp r.rfp_id s.rfps ≡ true)
        (λ (r : ExtractionRun).
          has_rfp r.rfp_id (keep (λ (r : Rfp). not (gone r.id)) s.rfps) ≡ true)
        s.runs (λ r t h. any-keep gone r.rfp_id s.rfps h (kept_here gone r.rfp_id t)) l.runs_linked;
  rows_linked =
      All-kept (λ (r : Requirement). not (gone r.rfp_id))
        (λ (r : Requirement). has_rfp r.rfp_id s.rfps ≡ true)
        (λ (r : Requirement). has_rfp r.rfp_id (keep (λ (r : Rfp). not (gone r.id)) s.rfps) ≡ true)
        s.requirements (λ r t h. any-keep gone r.rfp_id s.rfps h (kept_here gone r.rfp_id t))
        l.rows_linked;
  rfps_linked =
      All-kept (λ (r : Rfp). not (gone r.id))
        (λ (r : Rfp). any (λ (a : Account). a.id == r.account_id) s.accounts ≡ true)
        (λ (r : Rfp). any (λ (a : Account). a.id == r.account_id) s.accounts ≡ true) s.rfps
        (λ r t h. h) l.rfps_linked;
}

any-kept_account :
    (account : Account) (i : ℕ) (accs : List Account)
    → any (λ (a : Account). a.id == i) accs ≡ true
    → (i == account.id) ≡ false
    → any (λ (a : Account). a.id == i) (keep (λ (a : Account). not (is_account account a.id)) accs)
      ≡ true
any-kept_account account i [] h g = h
any-kept_account account i (a ∷ accs) h g = elim (Bool-cases (a.id == i)) [
  | inl e ↦
      let other : (a.id == account.id) ≡ false =
        ap (λ k. k == account.id) ((==_iff a.id i).0 e) ∙ g in
      rw other (rw e refl)
  | inr e ↦
      let later : any (λ (a : Account). a.id == i) accs ≡ true = rw e at h in
      elim (Bool-cases (a.id == account.id)) [
        | inl b ↦ rw b (any-kept_account account i accs later g)
        | inr b ↦ rw b (rw e (any-kept_account account i accs later g))
      ]
]

-- A solicitation of the account is one of those that go.
owned_goes :
    (account : Account) (rfps : List Rfp)
    → All (λ (r : Rfp). owns account rfps r.id ≡ false → (r.account_id == account.id) ≡ false) rfps
owned_goes account rfps = for_suffix rfps (λ r h. h)
  where
    for_suffix :
        (rs : List Rfp)
        → ((r : Rfp) → owns account rfps r.id ≡ false → owns account rs r.id ≡ false)
        → All
            (λ (r : Rfp). owns account rfps r.id ≡ false → (r.account_id == account.id) ≡ false)
            rs
    for_suffix [] f = tt
    for_suffix (r ∷ rs) f = (
      λ h. (let head : owns account (r ∷ rs) r.id ≡ false = f r h in ground (arith, ==_refl r.id)),
      for_suffix rs
          (λ q h. (let whole : owns account (r ∷ rs) q.id ≡ false = f q h in ground arith)),
    )

-- After an account is deleted, none of its solicitations is left, and every run and requirement that is
-- left is of a solicitation that is left, and every solicitation of an account that is left.
pub delete_account-IsLinked :
    (account : Account) (s : Session)
    → IsLinked s
    → IsLinked (delete_account account s).1
      × All (λ (r : Rfp). (r.account_id == account.id) ≡ false) (delete_account account s).1.rfps
unfolding delete_account delete_rfps
delete_account-IsLinked account s l =
    let gone = owns account s.rfps in
    let d = delete_rfps-IsLinked gone s l in
    let free =
      All-kept (λ (r : Rfp). not (gone r.id))
        (λ (r : Rfp). owns account s.rfps r.id ≡ false → (r.account_id == account.id) ≡ false)
        (λ (r : Rfp). (r.account_id == account.id) ≡ false) s.rfps
        (λ r t h. h (kept_here gone r.id t)) (owned_goes account s.rfps) in
    (
      record {
        runs_linked = d.runs_linked;
        rows_linked = d.rows_linked;
        rfps_linked = both (keep (λ (r : Rfp). not (gone r.id)) s.rfps) d.rfps_linked free;
      },
      free,
    )
  where
    both :
        (rs : List Rfp)
        → All (λ (r : Rfp). any (λ (a : Account). a.id == r.account_id) s.accounts ≡ true) rs
        → All (λ (r : Rfp). (r.account_id == account.id) ≡ false) rs
        → All
            (λ (r : Rfp).
              any
                (λ (a : Account). a.id == r.account_id)
                (keep (λ (a : Account). not (is_account account a.id)) s.accounts)
              ≡ true)
            rs
    both [] a b = tt
    both (r ∷ rs) a b = (any-kept_account account r.account_id s.accounts a.0 b.0, both rs a.1 b.1)
