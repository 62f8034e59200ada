-- ===== src/Tests/Jobs.antt =====
-- app/core/queue.py at concrete inputs.
use rfp_shred.Prelude.{Bool, keep, map, refl, some, sort_by, suc, true, ℕ, ◌≡◌}
use rfp_shred.Models.{Session, Job}
use rfp_shred.Queue.{claimed, claim_next_job}
use rfp_shred.Queue.Claims.{IsClaimed, claim_next_job-IsAhead}
use rfp_shred.Queue.Recovery.{requeue_stale_runs}
use rfp_shred.Queue.Recovery.Keeps.{unsourced, is_verified, requeue_stale_runs-verified}
use rfp_shred.Tests.Samples.{plant, waiting_job}

abbrev after_claim : Session
after_claim = (claim_next_job 9 9 "w" plant).1

the_claim : claim_next_job 9 9 "w" plant ≡ (some (claimed 9 9 "w" waiting_job), after_claim)
unfolding claim_next_job sort_by
the_claim = refl

claim_next_job-IsAhead_example :
    (k : Job) × IsClaimed 9 9 "w" plant after_claim (claimed 9 9 "w" waiting_job) k
claim_next_job-IsAhead_example =
    claim_next_job-IsAhead 9 9 "w" plant after_claim (claimed 9 9 "w" waiting_job) the_claim

abbrev all_free : ℕ → Bool
all_free i = true

requeue_stale_runs-verified_example :
    map unsourced
      (keep is_verified (requeue_stale_runs 900_000_000 all_free suc 600 plant).1.requirements)
    ≡ map unsourced (keep is_verified plant.requirements)
requeue_stale_runs-verified_example = requeue_stale_runs-verified 900_000_000 all_free suc 600 plant
