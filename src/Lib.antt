-- ===== src/Lib.antt =====
-- RFP Shred: from a solicitation to a matrix of requirements, and who may see it.
--
-- A worker claims a job from the queue in the database, cuts the text of a solicitation into chunks,
-- has a language model mine requirements from each chunk, sets aside what the model itself marks as
-- noise, checks that each other item is quoted from the page it cites, and stores the matrix.
-- Stripe's events grant and withdraw access to it, a gate decides which rows a caller sees, and a
-- limiter bounds the attempts of each caller. The parts share the tables of one database session.
--
-- Where each part is modelled (paths of the program from the repository's root):
--   Models, Models/Rows: the tables (app/core/models.py) and `audit` (app/core/auditlog.py). A
--     session is the list of the rows of each table, in insertion order; a query is a pass over a
--     list, an assignment to an attribute a map over the row with that id.
--   RateLimit: app/core/ratelimit.py. `hit`, `peek` and `reset`, each one step under the lock.
--   Billing/Gate: app/billing/entitlement.py. `is_entitled` and `visible_rows`.
--   Billing/Webhook/Event, Process, Handle: app/billing/webhook.py. The events and lookups, one
--     handler for each type of event (`process_event`), and `handle_webhook`. A handler returns an
--     outcome or raises, and both leave a session behind, since the caller of `process_event`
--     catches the exception and the request commits.
--   Billing/Checkout: app/billing/checkout.py. `create_checkout`, up to the call of the client.
--   Web/UploadGuard: app/web/upload_guard.py. The guarded application is the tree of what it does:
--     it awaits messages, starts its response, returns or raises. Requests that overlap are the
--     steps of a relation on the counter.
--   Web/RowPatch: app/web/routes_api.py. `api_patch_row`.
--   Web/Matrices: app/web/routes_pages.py and app/web/routes_billing.py. `intake_upload`, `reprocess`
--     and the exports, up to the writing of the file.
--   Web/Restore: app/web/routes_pages.py. `restore_filtered` and `restore_audit_drop`, with the audit
--     of the stored file's pages.
--   Web/Account: app/web/routes_account.py and app/core/deferred_cleanup.py. The deletions, with the
--     foreign keys of app/core/models.py as passes over the tables.
--   Intake/Files, Service, Pagemap: app/pipeline/intake_files.py, app/web/intake_service.py and
--     app/pipeline/pagemap.py. `sniff_type`, `validate_zip_bytes`, `process_upload`, and
--     `build_page_map` with its OCR pass. Stored files are a list of paths.
--   Worker/Runner, Process: app/pipeline/runner.py and app/worker/main.py. `run_extraction` with all
--     its stages, `process_one_job` and the loop of the worker. What a run raised leaves the
--     session behind, since the worker commits it with the cause.
--   Sweep/Client, Runner, Scheduler: app/sweep/. The paging has fuel, one unit for a request;
--     Sweep/Paging says how many are enough. The scheduler's loop is over the readings of the clock.
--   Auth/Tokens, Sessions, Routes: app/core/security.py, app/web/deps.py, app/web/routes_auth.py.
--   Providers: app/core/model_client.py and app/core/provider_health.py. The adapters from a reply on,
--     and the probe of the providers.
--   Results: the value or the exception of a call that may raise.
--   Maintenance: app/core/maintenance.py. `enforce_source_retention`, `reprioritize_capped_jobs`.
--   Queue, Queue/Recovery: app/core/queue.py and app/core/usage.py. `enqueue`, `claim_next_job`,
--     `complete_job`, `requeue_stale_runs` and `priority_for_new_job`.
--   Pipeline/TextUtils, Normalize, Containment: app/pipeline/text_utils.py. Texts are lists of code
--     points; the ratio 0.10 is the fraction 1 / 10.
--   Pipeline/Chunking: app/pipeline/chunking.py. The loop over a segment has fuel, the length of the
--     text and one: each round moves on by at least one character, so the end comes first.
--   Pipeline/Mine/Calls, Process: app/pipeline/mine.py. The client is a script that answers the n-th
--     call. The recursion on halves is on the number of halvings left, which the code bounds by two.
--   Pipeline/Filter, Pipeline/Audit: app/pipeline/filter.py and app/pipeline/audit.py.
--   Pipeline/Transform: app/pipeline/transform.py. `persist_mine_result`.
--   Prelude: lists, Boolean tests on numbers, a stable sort, and the names of the libraries.
--   Tests: concrete inputs, and the theorems at them.
-- The child modules with a name of their own, such as Webhook/Tombstone, hold theorems.
--
-- Numbers and time. Counters and ids are natural numbers: a UUID is a number, and a parameter says
-- which text names which. An instant is a number of microseconds, in the limiter of nanoseconds.
--
-- From outside come, as parameters: the clock, the ids of new rows, `uuid.UUID`, the mailer, the
-- verdict of Stripe's signature check, the parsed payloads of Stripe, of SAM.gov and of the model,
-- Unicode's tables, the matching blocks of difflib, the headings that regular expressions find,
-- advisory locks, the readers of ZIP, PDF and DOCX files, OCR, the HTTP client, base64 and the
-- hashes, and the text of a failure's reason.
--
-- Not modelled: the other web routes, the pages' templates, the writers of exports, the text of mails,
-- the purge of old notices, the quality check and the evaluation of a corpus, the bodies of the
-- requests to the providers and the mock client, settings and migrations. Of the tables only the
-- columns that modelled code uses are kept.
pub mod Auth
pub mod Billing
pub mod Intake
pub mod Maintenance
pub mod Models
pub mod Pipeline
pub mod Prelude
pub mod Providers
pub mod Queue
pub mod RateLimit
pub mod Results
pub mod Sweep
pub mod Tests
pub mod Web
pub mod Worker
