-- ===== src/Pipeline/Mine.antt =====
-- app/pipeline/mine.py: the mining of one chunk, its retries and its halving. The model client is a
-- parameter: a script of the answers that it gives, one for each call of `complete`, in the
-- order of the calls. An answer is a response or one of the provider's errors. `parse` is `json.loads`
-- with the validation of the payload.
pub mod Calls
pub mod Process
pub mod Effort
pub mod Citations
