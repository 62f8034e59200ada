-- ===== src/Models/Rows.antt =====
-- app/core/models.py: one record for each table, and the closed sets of values of its
-- state-like columns (`RFP_STATES`, `RUN_STAGES`, `JOB_STATUSES` and so on).
use rfp_shred.Prelude.{ℕ, Bool, Option, List, String, Text}

pub data RfpState : Type 0 where
  received reading extracting auditing ready unlocked cleared exported failed expired : RfpState

pub data Origin : Type 0 where
  user sweep : Origin

pub data Stage : Type 0 where
  reading extracting auditing ready failed : Stage

pub data JobStatus : Type 0 where
  queued processing completed failed : JobStatus

pub data Kind : Type 0 where
  single plan : Kind

pub data StripeStatus : Type 0 where
  processing processed dead_lettered : StripeStatus

pub record Account : Type 0 where
  pub id : ℕ
  pub email : String
  pub pass_hash : Text
  pub is_staff : Bool
  pub watch_naics : List String
  pub watch_set_asides : List String

pub record Rfp : Type 0 where
  pub id : ℕ
  pub account_id : ℕ
  pub stored_path : Option String
  pub content_hash : Option String
  pub solicitation_no : Option String
  pub due_at : Option ℕ
  pub state : RfpState
  pub retain_source : Bool
  pub unlocked_at : Option ℕ
  pub page_count : Option ℕ
  pub origin : Origin
  pub created_at : ℕ

pub record ExtractionRun : Type 0 where
  pub id : ℕ
  pub rfp_id : ℕ
  pub stage : Stage
  pub heartbeat_at : ℕ
  pub attempt : ℕ
  pub error : Option Text
  pub created_at : ℕ

pub record Job : Type 0 where
  pub id : ℕ
  pub rfp_id : Option ℕ
  pub priority : ℕ
  pub status : JobStatus
  pub locked_at : Option ℕ
  pub locked_by : Option String
  pub enqueued_at : ℕ
  pub started_at : Option ℕ
  pub finished_at : Option ℕ

pub record RawModelOutput : Type 0 where
  pub id : ℕ
  pub extraction_run_id : ℕ
  pub chunk_index : ℕ
  pub tokens_in : ℕ
  pub tokens_out : ℕ

pub record Requirement : Type 0 where
  pub id : ℕ
  pub rfp_id : ℕ
  pub seq : ℕ
  pub clause_id : Text
  pub section : Text
  pub page : ℕ
  pub body : Text
  pub excerpt : Text
  pub response : Text
  pub verified_at : Option ℕ
  pub tags : List Text
  pub model_output_id : Option ℕ

pub record FilteredLine : Type 0 where
  pub id : ℕ
  pub rfp_id : ℕ
  pub seq : ℕ
  pub page : ℕ
  pub text_preview : Text
  pub full_text : Text
  pub filter_reason : Text
  pub re_included : Bool

pub record AuditDrop : Type 0 where
  pub id : ℕ
  pub rfp_id : ℕ
  pub seq : ℕ
  pub page : ℕ
  pub excerpt : Text
  pub text : Text
  pub audit_failure_reason : Text
  pub re_included : Bool

pub record Entitlement : Type 0 where
  pub id : ℕ
  pub account_id : ℕ
  pub kind : Kind
  pub rfp_id : Option ℕ
  pub stripe_ref : Option String
  pub active : Bool
  pub period_end : Option ℕ

pub record StripeEvent : Type 0 where
  pub event_id : String
  pub processed_at : Option ℕ
  pub status : StripeStatus
  pub attempts : ℕ

pub record RetentionLog : Type 0 where
  pub rfp_id : Option ℕ
  pub action : String

pub data CorrectionType : Type 0 where
  uncheck reinclude_filtered reinclude_audit response_edit tag_edit : CorrectionType

pub record Correction : Type 0 where
  pub account_id : Option ℕ
  pub rfp_id : ℕ
  pub requirement_id : Option ℕ
  pub correction_type : CorrectionType

-- The actions that the modelled code audits. Each names one entity type, so the column `entity`
-- is determined by it.
pub data Action : Type 0 where
  entitlement_granted plan_extended plan_payment_confirmed plan_payment_failed : Action
  plan_canceled plan_synced stripe_event_dead_lettered export_delivered : Action
  sweep_digest_sent quality_threshold_breach password_reset corpus_annotation : Action

-- `str(entity_id)`: the text of a UUID, of a number or of `None`, or an id that is a text already.
pub data EntityId : Type 0 where
  of_uuid : ℕ → EntityId
  of_text : String → EntityId
  of_number : ℕ → EntityId
  of_none : EntityId

pub record AuditEvent : Type 0 where
  pub action : Action
  pub entity_id : EntityId
  pub actor_id : Option ℕ

pub record InferenceLog : Type 0 where
  pub account_id : Option ℕ
  pub rfp_id : Option ℕ
  pub tokens_in : ℕ
  pub tokens_out : ℕ
  pub estimated_cost_usd : ℕ
  pub created_at : ℕ

pub record SamNotice : Type 0 where
  pub notice_id : String
  pub title : String
  pub naics : List String
  pub set_aside : Option String
  pub posted_at : Option ℕ
  pub due_at : Option ℕ

-- The entries of a sweep's errors, by their kind, with what tells them apart.
pub data SweepError : Type 0 where
  unrecognized_field : List String → SweepError
  missing_notice_id no_attachment_url oversize_attachment : SweepError
  invalid_attachment_type attachment_fetch_failed : SweepError
  call_failed excess_matches_skipped : ℕ → SweepError

pub record SweepRun : Type 0 where
  pub id : ℕ
  pub started_at : ℕ
  pub finished_at : Option ℕ
  pub found : ℕ
  pub matched : ℕ
  pub errors : List SweepError

-- `SessionRow`
pub record SessionRow : Type 0 where
  pub id : ℕ
  pub account_id : Option ℕ
  pub token_hash : String
  pub csrf_token : String
  pub expires_at : ℕ

pub record ResetToken : Type 0 where
  pub id : ℕ
  pub account_id : ℕ
  pub token_hash : String
  pub expires_at : ℕ
  pub used_at : Option ℕ
