-- ===== src/Queue/Recovery/Keeps.antt =====
-- app/core/queue.py: what the recovery of stale runs keeps.
use rfp_shred.Prelude.{
  false, map, none, ◌∷◌, All, All-map_list, Bool, Bool-cases, List, Option, [], ap, arith,
  if◌then◌else◌, inl, inr, is_some, keep, leb, none, not, refl, some, subst, sym, ℕ, ◌+◌, ◌-◌, ◌==◌,
  ◌∙◌, ◌∷◌, ◌≡◌, ◌≤◌,
}
use rfp_shred.Models.{forget_output, seconds, Session, Job, Rfp, ExtractionRun, Requirement}
use rfp_shred.Queue.{enqueue}
use rfp_shred.Queue.Recovery.{
  output_gone, set_run, requeue_job, is_partial, clean_output, restart, find_job, recover,
  recover_all, stale_runs, requeue_stale_runs,
}

-- A row that somebody has verified.
abbrev pub is_verified : Requirement → Bool
is_verified r = is_some r.verified_at

-- A row without its reference to the model's output.
abbrev pub unsourced : Requirement → Requirement
unsourced r = record r { model_output_id = none }

keep-partial :
    (i : ℕ) (gone : ℕ → Bool) (rs : List Requirement)
    → map unsourced
        (keep is_verified (map (forget_output gone) (keep (λ r. not (is_partial i r)) rs)))
      ≡ map unsourced (keep is_verified rs)
keep-partial i gone [] = refl
keep-partial i gone (r ∷ rs) = elim (Bool-cases (is_some r.verified_at)) [
  | inl e ↦
      let kept : is_partial i r ≡ false = ground arith in
      rw (kept, e) (ap (λ t. unsourced r ∷ t) (keep-partial i gone rs))
  | inr e ↦ elim (Bool-cases (is_partial i r)) [
    | inl p ↦ rw (p, e) (keep-partial i gone rs)
    | inr p ↦ rw (p, e) (keep-partial i gone rs)
  ]
]

-- A run counts at most three attempts.
abbrev pub HasAttemptsLeft : ExtractionRun → Type 0
HasAttemptsLeft r = r.attempt ≤ 3

module _ (now : ℕ) where
  requirements-requeue_job :
      (new_id : ℕ) (rfp : Rfp) (o : Option Job) (s : Session)
      → (requeue_job now new_id rfp o s).requirements ≡ s.requirements
  unfolding enqueue
  requirements-requeue_job new_id rfp none s = refl
  requirements-requeue_job new_id rfp (some j) s = refl

  runs-requeue_job :
      (new_id : ℕ) (rfp : Rfp) (o : Option Job) (s : Session)
      → (requeue_job now new_id rfp o s).runs ≡ s.runs
  unfolding enqueue
  runs-requeue_job new_id rfp none s = refl
  runs-requeue_job new_id rfp (some j) s = refl

  module _ (locks : ℕ → Bool) (new_id : ℕ → ℕ) where
    verified-recover :
        (run : ExtractionRun) (rfp : Rfp) (s : Session)
        → map unsourced (keep is_verified (recover now locks new_id run rfp s).1.requirements)
          ≡ map unsourced (keep is_verified s.requirements)
    verified-recover run rfp s = elim (Bool-cases (locks run.id)) [
      | inr e ↦ rw e refl
      | inl e ↦ rw e (elim (Bool-cases (leb 3 run.attempt)) [
        | inl k ↦ rw k refl
        | inr k ↦ rw k (
            ap (λ t. map unsourced (keep is_verified t))
              (requirements-requeue_job (new_id run.id) rfp
                (find_job rfp.id (restart now run rfp s)) (restart now run rfp s))
            ∙ keep-partial rfp.id (output_gone run.id s.raw_outputs) s.requirements)
      ])
    ]

    verified-recover_all :
        (stale : List (ExtractionRun × Rfp)) (s : Session)
        → map unsourced (keep is_verified (recover_all now locks new_id stale s).1.requirements)
          ≡ map unsourced (keep is_verified s.requirements)
    unfolding recover_all
    verified-recover_all [] s = refl
    verified-recover_all ((run, rfp) ∷ stale) s =
        verified-recover_all stale (recover now locks new_id run rfp s).1
        ∙ verified-recover run rfp s

    -- Recovery never deletes what a person has verified: whatever runs are stale, the verified
    -- requirements are the same rows before and after, in the same order and with the same columns. The
    -- reference to the model's output, which goes with that output, is left out of account.
    pub requeue_stale_runs-verified :
        (stale_after_s : ℕ) (s : Session)
        → map unsourced
            (keep is_verified (requeue_stale_runs now locks new_id stale_after_s s).1.requirements)
          ≡ map unsourced (keep is_verified s.requirements)
    unfolding requeue_stale_runs
    requeue_stale_runs-verified stale_after_s s =
        verified-recover_all (stale_runs (now - seconds stale_after_s) s.rfps s.runs) s

    set_run-bound :
        (i : ℕ) (f : ExtractionRun → ExtractionRun) (s : Session)
        → ((r : ExtractionRun) → HasAttemptsLeft r → HasAttemptsLeft (f r))
        → All HasAttemptsLeft s.runs
        → All HasAttemptsLeft (set_run i f s).runs
    set_run-bound i f s keeps h = All-map_list HasAttemptsLeft HasAttemptsLeft _ one s.runs h
      where
        one :
            (r : ExtractionRun) → HasAttemptsLeft r → HasAttemptsLeft (if r.id == i then f r else r)
        one r k = elim (Bool-cases (r.id == i)) [ inl e ↦ rw e (keeps r k) | inr e ↦ rw e k ]

    bounded-recover :
        (run : ExtractionRun) (rfp : Rfp) (s : Session)
        → All HasAttemptsLeft s.runs
        → All HasAttemptsLeft (recover now locks new_id run rfp s).1.runs
    bounded-recover run rfp s h = elim (Bool-cases (locks run.id)) [
      | inr e ↦ rw e h
      | inl e ↦ rw e (elim (Bool-cases (leb 3 run.attempt)) [
        | inl k ↦ rw k (set_run-bound run.id _ s (λ r b. b) h)
        | inr k ↦ rw k (
            subst (All HasAttemptsLeft)
              (sym (
                runs-requeue_job (new_id run.id) rfp (find_job rfp.id (restart now run rfp s))
                  (restart now run rfp s)))
              (set_run-bound run.id
                (λ r. record r { attempt = run.attempt + 1; heartbeat_at = now })
                (clean_output run.id rfp.id s) (λ r b. ground arith) h))
      ])
    ]

    bounded-recover_all :
        (stale : List (ExtractionRun × Rfp)) (s : Session)
        → All HasAttemptsLeft s.runs
        → All HasAttemptsLeft (recover_all now locks new_id stale s).1.runs
    unfolding recover_all
    bounded-recover_all [] s h = h
    bounded-recover_all ((run, rfp) ∷ stale) s h =
        bounded-recover_all stale (recover now locks new_id run rfp s).1
          (bounded-recover run rfp s h)

    -- A document that kills its worker is not tried for ever: if no run counts more than three
    -- attempts, so it is after any recovery.
    requeue_stale_runs-bounded :
        (stale_after_s : ℕ) (s : Session)
        → All HasAttemptsLeft s.runs
        → All HasAttemptsLeft (requeue_stale_runs now locks new_id stale_after_s s).1.runs
    unfolding requeue_stale_runs
    requeue_stale_runs-bounded stale_after_s s h =
        bounded-recover_all (stale_runs (now - seconds stale_after_s) s.rfps s.runs) s h
