-- ===== src/Tests.antt =====
-- Concrete inputs of the parts of the program, and the theorems at them.
mod Samples
mod Limits
mod Payments
mod Texts
mod Mining
mod Jobs
mod Requests
mod Runs
mod Uploads
mod Codec
mod Sweeps
mod Callers
mod Owners
