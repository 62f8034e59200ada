-- ===== src/Queue/Claims.antt =====
-- app/core/queue.py: which job a worker gets.
use rfp_shred.Prelude.{
  ==_iff, ==_refl, Memᴰ, All-Mem, All-keep, Mem-map, map, not, sym, ◌==◌, ◌∙◌, ◌≢◌, if◌then◌else◌,
  ltb→lt, ltb, All, All-sort_by, Bool-cases, IsSorted, List, Option, String, [], ap, arith, false,
  inl, inr, keep, none, refl, some, sort_by, sort_by-IsSorted, subst, true, ℕ, ◌<◌, ◌∷◌, ◌≡◌, ◌⊎◌,
  ◌≤◌, All-of_sort_by, All-map,
}
use rfp_shred.Models.{JobStatus, Session, Job}
use rfp_shred.Queue.{
  is_queued, claimable, job_before, head, claim, claimed, next_job, claim_next_job,
}

job_before-total : (j k : Job) → job_before j k ≡ false → job_before k j ≡ true
job_before-total j k h = ground arith

job_before_trans :
    (j k l : Job) → job_before j k ≡ true → job_before k l ≡ true → job_before j l ≡ true
job_before_trans j k l h g = ground arith

job_before_refl : (j : Job) → job_before j j ≡ true
job_before_refl j = ground arith

-- The claimable jobs as the query returns them.
abbrev queue : Session → List Job
queue s = sort_by job_before (keep claimable s.jobs)

keep-passes : (js : List Job) → All (λ j. claimable j ≡ true) (keep claimable js)
keep-passes [] = tt
keep-passes (j ∷ js) = elim (Bool-cases (claimable j)) [
  | inl e ↦ rw e (e, keep-passes js)
  | inr e ↦ rw e (keep-passes js)
]

head-All : (P : Job → Type 0) (js : List Job) (j : Job) → head js ≡ some j → All P js → P j
head-All P [] j h a = cc
head-All P (k ∷ js) j h a = let same : k ≡ j = cc in subst P same a.0

-- Every job of the queue comes after its head.
head-first :
    (js : List Job) (j : Job)
    → head js ≡ some j
    → IsSorted job_before js
    → All (λ k. job_before j k ≡ true) js
head-first [] j h s = tt
head-first (k ∷ js) j h s =
    let same : k ≡ j = cc in
    subst (λ i. All (λ l. job_before i l ≡ true) (k ∷ js)) same (job_before_refl k, s.0)

-- The job `k` is served no later than `l`.
abbrev pub IsAhead : Job → Job → Type 0
IsAhead k l =
    (l.priority < k.priority) ⊎ ((l.priority ≡ k.priority) × (k.enqueued_at ≤ l.enqueued_at))

job_before-IsAhead : (k l : Job) → job_before k l ≡ true → IsAhead k l
job_before-IsAhead k l h = elim (Bool-cases (ltb l.priority k.priority)) [
  | inl e ↦ inl (ltb→lt _ _ e)
  | inr e ↦ inr (ground arith, ground arith)
]

claimable-ready : (k : Job) → claimable k ≡ true → (k.status ≡ JobStatus.queued) × (0 < k.priority)
claimable-ready k h = (is_queued-queued k.status (ground arith), ground arith)
  where
    is_queued-queued : (st : JobStatus) → is_queued st ≡ true → st ≡ JobStatus.queued
    is_queued-queued JobStatus.queued e = refl
    is_queued-queued JobStatus.processing e = cc
    is_queued-queued JobStatus.completed e = cc
    is_queued-queued JobStatus.failed e = cc

-- Of the worker's hold on a job: the job is processed by the worker, and since then.
abbrev pub IsHeld : (locked started : ℕ) → String → Job → Type 0
IsHeld locked started worker_id l =
    (l.status ≡ JobStatus.processing)
    × (l.locked_by ≡ some worker_id)
    × (l.locked_at ≡ some locked)
    × (l.started_at ≡ some started)

update_job-IsHeld :
    (locked started i : ℕ) (worker_id : String) (js : List Job)
    → let after =
        map (λ (j : Job). if j.id == i then claimed locked started worker_id j else j) js in
      All (λ (l : Job). (l.id ≢ i) ⊎ IsHeld locked started worker_id l) after
      × (keep (λ (l : Job). not (l.id == i)) after ≡ keep (λ (l : Job). not (l.id == i)) js)
update_job-IsHeld locked started i worker_id [] = (tt, refl)
update_job-IsHeld locked started i worker_id (j ∷ js) =
    let (held, same) = update_job-IsHeld locked started i worker_id js in
    elim (Bool-cases (j.id == i)) [
      | inl e ↦ rw (e, e) ((inr (refl, refl, refl, refl), held), same)
      | inr e ↦ rw (e, e) ((inl (λ eq. ground (arith, ==_iff j.id i)), held), ap (λ r. j ∷ r) same)
    ]

-- What a worker's claim has done: `k` is the row of the table as it was found.
pub record IsClaimed (locked started : ℕ) (worker_id : String) (s s' : Session) (j k : Job)
    : Type 0 where
  pub in_table : Memᴰ k s.jobs
  pub marked : j ≡ claimed locked started worker_id k
  pub was_queued : k.status ≡ JobStatus.queued
  pub not_parked : 0 < k.priority
  pub best : All (IsAhead k) (keep claimable s.jobs)
  pub stored : Memᴰ j s'.jobs
  pub held : All (λ (l : Job). (l.id ≢ k.id) ⊎ IsHeld locked started worker_id l) s'.jobs
  pub others :
      keep (λ (l : Job). not (l.id == k.id)) s'.jobs ≡ keep (λ (l : Job). not (l.id == k.id)) s.jobs

keep-Mem : (js : List Job) → All (λ j. Memᴰ j js) (keep claimable js)
keep-Mem js = All-keep (λ j. Memᴰ j js) claimable js (All-Mem js)

-- A worker gets a job of the table that is queued and not parked at priority zero, and the best of them:
-- every other claimable job has a lower priority, or the same and has waited no longer. In the table
-- the job is then processed by that worker, from that instant, and every other job is the same.
pub claim_next_job-IsAhead :
    (locked started : ℕ) (worker_id : String) (s s' : Session) (j : Job)
    → claim_next_job locked started worker_id s ≡ (some j, s')
    → (k : Job) × IsClaimed locked started worker_id s s' j k
unfolding claim_next_job
claim_next_job-IsAhead locked started worker_id s s' j h = for_next (next_job s) refl h
  where
    for_next :
        (o : Option Job)
        → next_job s ≡ o
        → claim locked started worker_id o s ≡ (some j, s')
        → (k : Job) × IsClaimed locked started worker_id s s' j k
    for_next none e g = let no : none ≡ some j = ap (λ p. p.0) g in cc
    for_next (some k) e g =
        let same : some (claimed locked started worker_id k) ≡ some j = ap (λ p. p.0) g in
        let mark : claimed locked started worker_id k ≡ j = cc in
        let after = ap (λ p. p.1.jobs) g in
        let ready = claimable-ready k (
          head-All (λ l. claimable l ≡ true) (queue s) k e
            (All-sort_by job_before _ _ (keep-passes s.jobs))) in
        let member =
          head-All (λ l. Memᴰ l s.jobs) (queue s) k e
            (All-sort_by job_before _ _ (keep-Mem s.jobs)) in
        let ordered =
          sort_by-IsSorted job_before job_before-total job_before_trans (keep claimable s.jobs) in
        let (held, others) = update_job-IsHeld locked started k.id worker_id s.jobs in
        let set = λ (l : Job). if l.id == k.id then claimed locked started worker_id l else l in
        let here : set k ≡ claimed locked started worker_id k = rw (==_refl k.id) refl in
        (
          k,
          record {
            in_table = member;
            marked = sym mark;
            was_queued = ready.0;
            not_parked = ready.1;
            best = All-of_sort_by job_before (IsAhead k) (keep claimable s.jobs) (
                All-map (λ l. job_before-IsAhead k l) (queue s) (head-first (queue s) k e ordered));
            stored =
                subst (Memᴰ j) after (
                  subst (λ x. Memᴰ x (map set s.jobs)) (here ∙ mark) (Mem-map set k s.jobs member));
            held =
                subst (All (λ (l : Job). (l.id ≢ k.id) ⊎ IsHeld locked started worker_id l)) after
                  held;
            others = rw⁻¹ after others;
          },
        )
