-- ===== src/Web/Matrices/Access.antt =====
-- app/web/routes_pages.py and app/web/routes_billing.py: what an account can set going, and what it is
-- handed.
use rfp_shred.Prelude.{
  ==_iff, All, Bool-cases, first, first-passes, ℕ, ◌≢◌, List, Option, String, [], ap, arith,
  false≢true, inl, inr, is_some, none, refl, some, subst, sym, true, ◌++◌, ◌+◌, ◌==◌, ◌∙◌, ◌∷◌, ◌≡◌,
  ◌⊎◌,
}
use rfp_shred.Results.{Result, returned, raised}
use rfp_shred.Worker.Published.{set_rfp_state-RfpIs}
use rfp_shred.Models.{
  Job, JobStatus, RfpState, Session, Account, Rfp, Stage, ExtractionRun, Requirement,
}
use rfp_shred.Intake.Service.{Disk}
use rfp_shred.Auth.Sessions.{http_exception, responded, Reply}
use rfp_shred.Web.Matrices.{
  has_source, reprocess_rfp, start_again, on_prior, guard_rows, enqueue, deliver, get_rfp,
  export_guard, rows_in_order, reprocess, is_over, next_run, export_matrix, is_entitled, owned,
  find_rfp, all_checked, WebWorld,
}
use rfp_shred.Worker.Process.{newest_run}
use rfp_shred.Billing.Gate.{is_entitled}
use rfp_shred.Queue.{enqueue}

all-All :
    (rows : List Requirement)
    → all_checked rows ≡ true
    → All (λ (r : Requirement). is_some r.verified_at ≡ true) rows
all-All [] h = tt
all-All (r ∷ rs) h = (ground arith, all-All rs (ground arith))

-- The solicitation that the request names: the first of its id in the table, and of the account.
pub record IsNamed (w : WebWorld) (account : Account) (rfp_id : String) (s : Session) (rfp : Rfp)
    : Type 0 where
  pub asked : w.parse_uuid rfp_id ≡ some rfp.id
  pub in_table : first (λ (r : Rfp). r.id == rfp.id) s.rfps ≡ some rfp
  pub own : rfp.account_id ≡ account.id

pub get_rfp-IsNamed :
    (w : WebWorld) (account : Account) (rfp_id : String) (s : Session) (rfp : Rfp)
    → get_rfp w s rfp_id account ≡ some rfp
    → IsNamed w account rfp_id s rfp
unfolding get_rfp
get_rfp-IsNamed w account rfp_id s rfp h = for_id (w.parse_uuid rfp_id) refl h
  where
    for_found :
        (i : ℕ) (o : Option Rfp)
        → w.parse_uuid rfp_id ≡ some i
        → first (λ (r : Rfp). r.id == i) s.rfps ≡ o
        → owned account o ≡ some rfp
        → IsNamed w account rfp_id s rfp
    for_found i none asked found g = cc
    for_found i (some r) asked found g = elim (Bool-cases (r.account_id == account.id)) [
      | inl e ↦
          let out : some r ≡ some rfp = rw e at g in
          let same : r ≡ rfp = cc in
          let named : r.id ≡ i =
            (==_iff r.id i).0 (first-passes (λ (x : Rfp). x.id == i) s.rfps r found) in
          subst (IsNamed w account rfp_id s) same (record {
            asked = asked ∙ ap (λ n. some n) (sym named);
            in_table = ap (λ n. first (λ (x : Rfp). x.id == n) s.rfps) named ∙ found;
            own = (==_iff r.account_id account.id).0 e;
          })
      | inr e ↦ let lost : none ≡ some rfp = rw e at g in cc
    ]

    for_id :
        (p : Option ℕ)
        → w.parse_uuid rfp_id ≡ p
        → owned account (find_rfp p s) ≡ some rfp
        → IsNamed w account rfp_id s rfp
    for_id none asked g = cc
    for_id (some i) asked g = for_found i (first (λ (r : Rfp). r.id == i) s.rfps) asked refl g

-- What an export that is delivered is of: the solicitation that was named, of the account and open to it,
-- with all its rows in the order of their numbers, each of them verified.
pub record IsDelivered (w : WebWorld) (account : Account) (rfp_id : String) (s : Session)
    (rows : List Requirement) : Type 0 where
  pub rfp : Rfp
  pub named : IsNamed w account rfp_id s rfp
  pub entitled : is_entitled w.now s account.id rfp ≡ true
  pub whole : rows ≡ rows_in_order rfp.id s
  pub verified : All (λ (r : Requirement). is_some r.verified_at ≡ true) rows

-- An export hands out rows only of the solicitation that the request names, which is in the table, is the
-- account's own and one that it is entitled to, and then all of its rows, each verified.
pub export_matrix-IsDelivered :
    (w : WebWorld) (account : Account) (rfp_id : String) (s s' : Session) (rows : List Requirement)
    → export_matrix w account rfp_id s ≡ (returned rows, s')
    → IsDelivered w account rfp_id s rows
unfolding export_matrix export_guard get_rfp
export_matrix-IsDelivered w account rfp_id s s' rows h = for_rfp (get_rfp w s rfp_id account) refl h
  where
    for_rfp :
        (o : Option Rfp)
        → get_rfp w s rfp_id account ≡ o
        → deliver account (guard_rows w.now account s o) s ≡ (returned rows, s')
        → IsDelivered w account rfp_id s rows
    for_rfp none e g =
        let no : Path (Result ℕ (List Requirement)) (raised 404) (returned rows) =
          ap (λ p. p.0) g in
        cc
    for_rfp (some rfp) e g = elim (Bool-cases (is_entitled w.now s account.id rfp)) [
      | inr locked ↦
          let same : deliver account (guard_rows w.now account s (some rfp)) s ≡ (raised 403, s) =
            rw locked refl in
          let no : Path (Result ℕ (List Requirement)) (raised 403) (returned rows) =
            ap (λ p. p.0) (sym same ∙ g) in
          cc
      | inl open_now ↦ elim (Bool-cases (all_checked (rows_in_order rfp.id s))) [
        | inr missing ↦
            let same : deliver account (guard_rows w.now account s (some rfp)) s ≡ (raised 409, s) =
              rw (open_now, missing) refl in
            let no : Path (Result ℕ (List Requirement)) (raised 409) (returned rows) =
              ap (λ p. p.0) (sym same ∙ g) in
            cc
        | inl checked ↦
            let same : (deliver account (guard_rows w.now account s (some rfp)) s).0
                ≡ returned (rows_in_order rfp.id s) =
              rw (open_now, checked) refl in
            let out : Path (Result ℕ (List Requirement)) (returned (rows_in_order rfp.id s))
                (returned rows) =
              sym same ∙ ap (λ p. p.0) g in
            let whole : rows_in_order rfp.id s ≡ rows = cc in
            record {
              rfp = rfp;
              named = get_rfp-IsNamed w account rfp_id s rfp e;
              entitled = open_now;
              whole = sym whole;
              verified =
                  subst (λ rs. All (λ (r : Requirement). is_some r.verified_at ≡ true) rs) whole
                    (all-All (rows_in_order rfp.id s) checked);
            }
      ]
    ]

-- What is queued by `reprocess`, if anything is.
pub record IsRestarted (w : WebWorld) (account : Account) (rfp_id : String) (s s' : Session)
    : Type 0 where
  pub rfp : Rfp
  pub prior : ExtractionRun
  pub named : IsNamed w account rfp_id s rfp
  pub latest : newest_run rfp.id s ≡ some prior
  pub over : (prior.stage ≡ Stage.ready) ⊎ (prior.stage ≡ Stage.failed)
  pub run : ExtractionRun
  pub one_run : s'.runs ≡ s.runs ++ run ∷ []
  pub run_of : run.rfp_id ≡ rfp.id
  pub next_attempt : run.attempt ≡ prior.attempt + 1
  pub from_start : run.stage ≡ Stage.reading
  pub job : Job
  pub one_job : s'.jobs ≡ s.jobs ++ job ∷ []
  pub job_of : job.rfp_id ≡ some rfp.id
  pub waits : job.status ≡ JobStatus.queued
  pub state_reset : All (λ (r : Rfp). (r.id ≢ rfp.id) ⊎ (r.state ≡ RfpState.received)) s'.rfps
  pub same_rows : s'.requirements ≡ s.requirements

is_over-ended : (st : Stage) → is_over st ≡ true → (st ≡ Stage.ready) ⊎ (st ≡ Stage.failed)
is_over-ended Stage.ready h = inl refl
is_over-ended Stage.failed h = inr refl
is_over-ended Stage.reading h = absurd (false≢true h)
is_over-ended Stage.extracting h = absurd (false≢true h)
is_over-ended Stage.auditing h = absurd (false≢true h)

-- A solicitation is queued again only if it is the one that the request names, of the account's own, and
-- only when its latest run is over: then by one run, from the first stage on, whose attempt is the next
-- one, and by one queued job, and it counts as received, and the rows stay. In every other case nothing
-- changes.
pub reprocess-IsRestarted :
    (w : WebWorld) (cap : ℕ) (disk : Disk) (account : Account) (rfp_id : String) (s s' : Session)
    (reply : Reply)
    → reprocess w cap disk account rfp_id s ≡ (reply, s')
    → (s' ≡ s) ⊎ IsRestarted w account rfp_id s s'
unfolding reprocess get_rfp enqueue
reprocess-IsRestarted w cap disk account rfp_id s s' reply h =
    for_rfp (get_rfp w s rfp_id account) refl h
  where
    for_prior :
        (rfp : Rfp) (o : Option ExtractionRun)
        → IsNamed w account rfp_id s rfp
        → newest_run rfp.id s ≡ o
        → on_prior w cap account rfp o s ≡ (reply, s')
        → (s' ≡ s) ⊎ IsRestarted w account rfp_id s s'
    for_prior rfp none named latest g = inl (sym (ap (λ p. p.1) g))
    for_prior rfp (some prior) named latest g = elim (Bool-cases (is_over prior.stage)) [
      | inr busy ↦
          let same : on_prior w cap account rfp (some prior) s ≡ (responded 303, s) =
            rw busy refl in
          inl (sym (ap (λ p. p.1) (sym same ∙ g)))
      | inl done ↦
          let same : on_prior w cap account rfp (some prior) s
              ≡ (responded 303, start_again w cap account rfp prior s) =
            rw done refl in
          let out = sym (ap (λ p. p.1) (sym same ∙ g)) in
          inr (record {
            rfp = rfp;
            prior = prior;
            named = named;
            latest = latest;
            over = is_over-ended prior.stage done;
            run = next_run w rfp prior;
            one_run = ap (λ t. t.runs) out;
            run_of = refl;
            next_attempt = refl;
            from_start = refl;
            job = _;
            one_job = ap (λ t. t.jobs) out;
            job_of = refl;
            waits = refl;
            state_reset =
                subst
                  (λ t. All (λ (r : Rfp). (r.id ≢ rfp.id) ⊎ (r.state ≡ RfpState.received)) t.rfps)
                  (sym out) (set_rfp_state-RfpIs rfp.id RfpState.received s.rfps);
            same_rows = ap (λ t. t.requirements) out;
          })
    ]

    for_rfp :
        (o : Option Rfp)
        → get_rfp w s rfp_id account ≡ o
        → reprocess_rfp w cap disk account o s ≡ (reply, s')
        → (s' ≡ s) ⊎ IsRestarted w account rfp_id s s'
    for_rfp none e g = inl (sym (ap (λ p. p.1) g))
    for_rfp (some rfp) e g = elim (Bool-cases (has_source disk rfp.stored_path)) [
      | inr gone ↦
          let same : reprocess_rfp w cap disk account (some rfp) s ≡ (http_exception 410, s) =
            rw gone refl in
          inl (sym (ap (λ p. p.1) (sym same ∙ g)))
      | inl there ↦
          let same : reprocess_rfp w cap disk account (some rfp) s
              ≡ on_prior w cap account rfp (newest_run rfp.id s) s =
            rw there refl in
          for_prior rfp (newest_run rfp.id s) (get_rfp-IsNamed w account rfp_id s rfp e) refl
            (sym same ∙ g)
    ]
