-- ===== src/Sweep.antt =====
-- app/sweep/: the nightly search for notices, the matches that it turns into runs, and the scheduler.
pub mod Client
pub mod Paging
pub mod Runner
pub mod Matches
pub mod Scheduler
pub mod Due
