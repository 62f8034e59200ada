-- ===== src/Models.antt =====
-- app/core/models.py and app/core/auditlog.py: the tables that the modelled code reads and writes.
-- A session is its tables, each a list in insertion order. Ids are numbers, an instant is a number
-- of microseconds, and a text is a `String` where it is only compared, or the list of its code
-- points where the program looks into it. Columns that no modelled operation reads are left out.
mod Rows
use rfp_shred.Prelude.{
  some, if◌then◌else◌, ℕ, ◌*◌, Bool, false, Option, none, List, [], ◌∷◌, ◌++◌, String,
}
pub use Rows.*

pub record Session : Type 0 where
  pub accounts : List Account
  pub rfps : List Rfp
  pub runs : List ExtractionRun
  pub jobs : List Job
  pub raw_outputs : List RawModelOutput
  pub requirements : List Requirement
  pub filtered_lines : List FilteredLine
  pub audit_drops : List AuditDrop
  pub entitlements : List Entitlement
  pub stripe_events : List StripeEvent
  pub audit_events : List AuditEvent
  pub retention_log : List RetentionLog
  pub corrections : List Correction
  pub inference_log : List InferenceLog
  pub sam_notices : List SamNotice
  pub sweep_runs : List SweepRun
  pub sessions : List SessionRow
  pub reset_tokens : List ResetToken
  -- what `Mailer.send` was called with: the addressees, the latest last
  pub outbox : List String

abbrev pub empty_session : Session
empty_session = record {
  accounts = [];
  rfps = [];
  runs = [];
  jobs = [];
  raw_outputs = [];
  requirements = [];
  filtered_lines = [];
  audit_drops = [];
  entitlements = [];
  stripe_events = [];
  audit_events = [];
  retention_log = [];
  corrections = [];
  inference_log = [];
  sam_notices = [];
  sweep_runs = [];
  sessions = [];
  reset_tokens = [];
  outbox = [];
}

-- `auditlog.audit`
abbrev pub audit : Action → EntityId → Option ℕ → Session → Session
audit action entity_id actor_id s = record s {
  audit_events =
      s.audit_events ++ record { action = action; entity_id = entity_id; actor_id = actor_id } ∷ [];
}

abbrev pub seconds : ℕ → ℕ
seconds n = n * 1_000_000

abbrev pub days : ℕ → ℕ
days n = n * 86_400_000_000

-- A foreign key to a row with one of the ids that are gone.
abbrev pub refers : (ℕ → Bool) → Option ℕ → Bool
refers gone none = false
refers gone (some i) = gone i

-- `ON DELETE SET NULL`
abbrev pub forget : (ℕ → Bool) → Option ℕ → Option ℕ
forget gone o = if refers gone o then none else o

abbrev pub forget_output : (ℕ → Bool) → Requirement → Requirement
forget_output gone r = record r { model_output_id = forget gone r.model_output_id }

abbrev pub forget_requirement : (ℕ → Bool) → Correction → Correction
forget_requirement gone c = record c { requirement_id = forget gone c.requirement_id }
