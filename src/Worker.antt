-- ===== src/Worker.antt =====
-- app/pipeline/runner.py and app/worker/main.py: the run that takes a stored file to its matrix, and the
-- worker that claims a job and drives its run.
pub mod Runner
pub mod Process
pub mod Published
pub mod Settled
