-- ===== src/Sweep/Matches.antt =====
-- app/sweep/runner.py: how many solicitations a sweep makes.
use rfp_shred.Prelude.{
  ==_iff, Bool, Bool-cases, List, Option, String, [], any, append-nil, arith, eq_iff, false, inl,
  inr, keep, keep-append, leb, length, length-append, ltb, max, none, refl, some, str_eq, subst,
  sym, true, ℕ, ◌++◌, ◌+◌, ◌==◌, ◌∙◌, ◌∷◌, ◌≡◌, ◌≤◌,
}
use rfp_shred.Results.{Result, returned, raised}
use rfp_shred.Models.{Session, Rfp, Account, SweepError}
use rfp_shred.Intake.Files.{Bytes}
use rfp_shred.Sweep.Client.{fetch_attachment, SamNoticeData, FetchResult}
use rfp_shred.Sweep.Runner.{
  matched_rfp, begin, on_url, on_attachment, upsert_all, fresh, send_digest, number_of, same_number,
  run_sweep_once, audit_digest, founders, founder_round, DigestEntry, match_all, match_round,
  materialize_match, already_matched, is_match, SweepWorld, SweepSettings, Matching, Sweeping,
}
use rfp_shred.Queue.{enqueue}

keep-any {ℓ} :
    {A : Type ℓ} (test : A → Bool) (xs : List A) → any test xs ≡ false → keep test xs ≡ []
keep-any test [] h = refl
keep-any test (x ∷ xs) h =
    let not_this : test x ≡ false = ground arith in
    let none_later : any test xs ≡ false = ground arith in
    rw (not_this, keep-any test xs none_later) refl

-- Each account has at most one solicitation of a sweep for each number.
abbrev pub IsUnique : Session → Type 0
IsUnique s =
    (account_id : ℕ) (solicitation_no : String)
    → length (keep (is_match account_id solicitation_no) s.rfps) ≤ 1

is_match_new :
    (a b : ℕ) (t u : String) (r : Rfp)
    → r.account_id ≡ a
    → r.solicitation_no ≡ some t
    → is_match b u r ≡ true
    → (b ≡ a) × (u ≡ t)
is_match_new a b t u r ra rt h =
    let same_account : (r.account_id == b) ≡ true = ground arith in
    let found : same_number u r.solicitation_no ≡ true = ground arith in
    let texts : str_eq t u ≡ true = rw rt at found in
    (sym ((==_iff r.account_id b).0 same_account) ∙ ra, sym ((eq_iff t u).0 texts))

add-IsUnique :
    (a : ℕ) (t : String) (r : Rfp) (s : Session)
    → r.account_id ≡ a
    → r.solicitation_no ≡ some t
    → already_matched a t s ≡ false
    → IsUnique s
    → IsUnique (record s { rfps = s.rfps ++ r ∷ [] })
add-IsUnique a t r s ra rt new unique b u = elim (Bool-cases (is_match b u r)) [
  | inl e ↦
      let (ab, tu) = is_match_new a b t u r ra rt e in
      let before : keep (is_match b u) s.rfps ≡ [] =
        subst (λ c. keep (is_match c u) s.rfps ≡ []) (sym ab)
          (subst (λ v. keep (is_match a v) s.rfps ≡ []) (sym tu)
            (keep-any (is_match a t) s.rfps new)) in
      rw (keep-append (is_match b u) s.rfps (r ∷ []), before, e) (omega arith)
  | inr e ↦
      rw (keep-append (is_match b u) s.rfps (r ∷ []), e, append-nil (keep (is_match b u) s.rfps))
        (unique b u)
]

module _ (w : SweepWorld) (settings : SweepSettings) where
  -- What a round keeps: the uniqueness, and the count of new solicitations against `processed`.
  abbrev Grows : Matching → Matching → Type 0
  Grows m m' =
      (IsUnique m.session → IsUnique m'.session)
      × (length m'.session.rfps + m.processed ≤ length m.session.rfps + m'.processed)

  on_attachment-Grows :
      (founder : Account) (n : SamNoticeData) (m : Matching) (r : Result SweepError Bytes)
      → already_matched founder.id (number_of n) m.session ≡ false
      → let m' =
          on_attachment w settings founder n
            (number_of n)
            r
            (record m { processed = m.processed + 1 }) in
        Grows m m' × (m'.processed ≡ m.processed + 1)
  unfolding enqueue
  on_attachment-Grows founder n m (raised e) new = ((λ u. u, omega arith), refl)
  on_attachment-Grows founder n m (returned bytes) new =
      let r = matched_rfp w settings founder n (number_of n) bytes m.session in
      (
        (
          λ u. add-IsUnique founder.id (number_of n) r m.session refl refl new u,
          omega (arith, length-append m.session.rfps (r ∷ [])),
        ),
        refl,
      )

  materialize_match-Grows :
      (founder : Account) (n : SamNoticeData) (m : Matching)
      → already_matched founder.id (number_of n) m.session ≡ false
      → let m' =
          materialize_match w settings founder n
            (number_of n)
            (record m { processed = m.processed + 1 }) in
        Grows m m' × (m'.processed ≡ m.processed + 1)
  unfolding materialize_match
  materialize_match-Grows founder n m new = for_url n.attachment_url
    where
      for_url :
          (url : Option String)
          → let m' =
              on_url w settings founder n
                (number_of n)
                url
                (record m { processed = m.processed + 1 }) in
            Grows m m' × (m'.processed ≡ m.processed + 1)
      for_url none = ((λ u. u, omega arith), refl)
      for_url (some url) =
          on_attachment-Grows founder n m
            (fetch_attachment w.open_zip w.download settings.max_upload_bytes url) new

  match_round-Grows :
      (founder : Account) (n : SamNoticeData) (m : Matching)
      → let m' = match_round w settings founder n m in
        Grows m m' × (m'.processed ≤ max m.processed settings.max_sweep_matches_per_run)
  match_round-Grows founder n m =
      elim (Bool-cases (already_matched founder.id (number_of n) m.session)) [
        | inl e ↦ rw e ((λ u. u, omega arith), omega arith)
        | inr e ↦ elim (Bool-cases (leb settings.max_sweep_matches_per_run m.processed)) [
          | inl full ↦ rw (e, full) ((λ u. u, omega arith), omega arith)
          | inr room ↦
              let (grows, one) = materialize_match-Grows founder n m e in
              rw (e, room) (grows, ground (arith, one))
        ]
      ]

  match_all-Grows :
      (founder : Account) (ns : List SamNoticeData) (m : Matching)
      → let m' = match_all w settings founder ns m in
        Grows m m' × (m'.processed ≤ max m.processed settings.max_sweep_matches_per_run)
  unfolding match_all
  match_all-Grows founder [] m = ((λ u. u, omega arith), omega arith)
  match_all-Grows founder (n ∷ ns) m =
      let one = match_round w settings founder n m in
      let ((keeps, adds), bound) = match_round-Grows founder n m in
      let ((keeps', adds'), bound') = match_all-Grows founder ns one in
      ((λ u. keeps' (keeps u), omega (arith, adds, adds')), omega (arith, bound, bound'))

  -- For one founder a sweep makes at most as many solicitations as the settings allow.
  match_all-bounded :
      (founder : Account) (notices : List SamNoticeData) (s : Session) (errors : List SweepError)
      → let m = match_all w settings founder notices (record {
        session = s;
        errors = errors;
        entries = [];
        processed = 0;
        skipped_excess = 0;
      }) in
        length m.session.rfps ≤ length s.rfps + settings.max_sweep_matches_per_run
  match_all-bounded founder notices s errors =
      let start : Matching = record {
        session = s;
        errors = errors;
        entries = [];
        processed = 0;
        skipped_excess = 0;
      } in
      let ((keeps, adds), bound) = match_all-Grows founder notices start in
      omega (arith, adds, bound)

  send_digest-rfps :
      (to : String) (es : List DigestEntry) (s : Session) → (send_digest to es s).1.rfps ≡ s.rfps
  send_digest-rfps to [] s = refl
  send_digest-rfps to (e ∷ es) s = refl

  founder_round-IsUnique :
      (f : Account) (notices : List SamNoticeData) (st : Sweeping)
      → IsUnique st.session
      → IsUnique (founder_round w settings f notices st).session
  founder_round-IsUnique f notices st unique = elim (Bool-cases (ltb 0 (length f.watch_naics))) [
    | inl e ↦
        let m = match_all w settings f (fresh w settings f notices) (begin w settings st) in
        let ((keeps, adds), bound) =
          match_all-Grows f (fresh w settings f notices) (begin w settings st) in
        rw e (λ a t. rw (send_digest-rfps f.email m.entries m.session) (keeps unique a t))
    | inr e ↦ rw e unique
  ]

  founders-IsUnique :
      (fs : List Account) (notices : List SamNoticeData) (st : Sweeping)
      → IsUnique st.session
      → IsUnique (founders w settings fs notices st).session
  unfolding founders
  founders-IsUnique [] notices st unique = unique
  founders-IsUnique (f ∷ fs) notices st unique =
      founders-IsUnique fs notices (founder_round w settings f notices st)
        (founder_round-IsUnique f notices st unique)

  audit_digest-rfps : (sent : Bool) (s : Session) → (audit_digest w settings sent s).rfps ≡ s.rfps
  audit_digest-rfps true s = refl
  audit_digest-rfps false s = refl

  -- Sweeps never make two solicitations for one account and one number, however often a notice is found
  -- and by however many sweeps.
  pub run_sweep_once-IsUnique :
      (result : FetchResult) (s : Session)
      → IsUnique s
      → IsUnique (run_sweep_once w settings result s)
  unfolding run_sweep_once
  run_sweep_once-IsUnique result s unique a t =
      let s' : Session = record s { sam_notices = upsert_all result.notices s.sam_notices } in
      let st =
        founders w settings (keep (λ (a : Account). a.is_staff) s.accounts) result.notices
          (record { session = s'; errors = result.errors; matched = 0; digest_sent = false }) in
      rw (audit_digest-rfps st.digest_sent st.session) (
        founders-IsUnique (keep (λ (a : Account). a.is_staff) s.accounts) result.notices
          (record { session = s'; errors = result.errors; matched = 0; digest_sent = false }) unique
          a t)
