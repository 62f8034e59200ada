-- ===== src/Tests/Samples.antt =====
-- Concrete inputs: what stands for the outside world, and rows of the tables.
use rfp_shred.Prelude.{
  List, Option, String, Text, [], codes, false, if◌then◌else◌, length, none, some, str_eq, suc,
  true, zero, ℕ, ◌==◌, ◌||◌, ◌∷◌,
}
use rfp_shred.Models.{
  Session, empty_session, Rfp, RfpState, Origin, Requirement, Entitlement, plan, Action, of_uuid,
  Job, JobStatus, ExtractionRun, Stage,
}
use rfp_shred.Pipeline.Items.{Chunk, MinedItem, Pages}
use rfp_shred.Pipeline.TextUtils.Normalize.{Unicode}
use rfp_shred.Pipeline.TextUtils.Containment.{Block}
use rfp_shred.Pipeline.Chunking.{Span, Segment}
use rfp_shred.Billing.Webhook.Event.{Obj, Event, checkout_session_completed, invoice_paid}
use rfp_shred.Billing.Webhook.Process.{Env}

-- ASCII text in lower case.
abbrev pub ascii : Unicode
ascii = record { is_space = λ c. c == 32 || c == 10; lower = λ t. t }

-- One block: the whole excerpt at the start of the page.
abbrev pub one_block : Text → Text → List Block
one_block excerpt page = record { a = 0; b = 0; size = length excerpt } ∷ []

abbrev pub parse : String → Option ℕ
parse t = if str_eq t "rfp-1" then some 1 else if str_eq t "account-2" then some 2 else none

abbrev pub env_at : ℕ → Env
env_at now = record {
  now = now;
  new_id = 50;
  parse_uuid = parse;
  has_mailer = false;
  sends = λ _. true;
}

abbrev pub blank_obj : Obj
blank_obj = record {
  id = "";
  subscription = "";
  rfp_id = "";
  account_id = "";
  kind = none;
  status = none;
  period_end = none;
  current_period_end = none;
  lines = [];
}

abbrev pub checkout_obj : Obj
checkout_obj = record blank_obj { id = "cs-1"; rfp_id = "rfp-1"; account_id = "account-2" }

abbrev pub invoice_obj : Obj
invoice_obj = record blank_obj { id = "in-1"; subscription = "sub-1"; lines = some 900 ∷ [] }

abbrev pub checkout_event : Event
checkout_event = record { id = "evt-1"; type = checkout_session_completed; obj = checkout_obj }

abbrev pub invoice_event : Event
invoice_event = record { id = "evt-2"; type = invoice_paid; obj = invoice_obj }

abbrev pub locked_rfp : Rfp
locked_rfp = record {
  id = 1;
  account_id = 2;
  stored_path = none;
  content_hash = none;
  state = RfpState.ready;
  retain_source = false;
  unlocked_at = none;
  solicitation_no = none;
  due_at = none;
  page_count = some 3;
  origin = Origin.user;
  created_at = 0;
}

abbrev pub shop : Session
shop = record empty_session { rfps = locked_rfp ∷ [] }

abbrev pub unlocked_rfp : Rfp
unlocked_rfp = record locked_rfp { unlocked_at = some 5 }

abbrev pub unlocked_shop : Session
unlocked_shop = record empty_session { rfps = unlocked_rfp ∷ [] }

abbrev pub dead_plan : Entitlement
dead_plan = record {
  id = 7;
  account_id = 2;
  kind = plan;
  rfp_id = none;
  stripe_ref = some "sub-1";
  active = false;
  period_end = some 10;
}

abbrev pub canceled_shop : Session
canceled_shop = record shop {
  entitlements = dead_plan ∷ [];
  audit_events =
      record { action = Action.plan_canceled; entity_id = of_uuid 7; actor_id = none } ∷ [];
}

abbrev pub row : ℕ → Requirement
row n = record {
  id = n;
  rfp_id = 1;
  seq = n;
  clause_id = [];
  section = [];
  page = 1;
  body = n ∷ [];
  excerpt = [];
  response = [];
  verified_at = some 3;
  tags = [];
  model_output_id = none;
}

abbrev pub twelve_rows : Session
twelve_rows = record shop {
  requirements =
      row 12
      ∷ row 1
      ∷ row 2
      ∷ row 3
      ∷ row 4
      ∷ row 5
      ∷ row 6
      ∷ row 7
      ∷ row 8
      ∷ row 9
      ∷ row 10
      ∷ row 11
      ∷ [];
}

abbrev pub pages : Pages
pages = (1, codes "the offeror shall submit a plan") ∷ (2, codes "general") ∷ []

abbrev pub quoted : MinedItem
quoted = record {
  clause_id = codes "l.1";
  section = codes "l";
  page = 1;
  text = codes "shall submit a plan";
  excerpt = codes "shall submit";
  is_requirement = true;
  chunk_index = 0;
  doc_order = 0;
}

-- An item that the document does not hold.
abbrev pub made_up : MinedItem
made_up = record quoted { text = codes "shall pay"; doc_order = 1; is_requirement = false }

abbrev pub chunk : Chunk
chunk = record {
  index = 0;
  section_heading = codes "l";
  parent_section = [];
  page_start = 2;
  page_end = 5;
  text = codes "shall submit";
  context_summary = [];
  sub_index = 0;
}

abbrev pub repeated : ℕ → Text
repeated zero = []
repeated (suc n) = 120 ∷ repeated n

abbrev pub segment : Segment
segment = record { heading = codes "l"; parent = []; start = 1; stop = 9; context = [] }

abbrev pub spans : List Span
spans = record { page = 1; start = 0; stop = 6 } ∷ record { page = 2; start = 6; stop = 10 } ∷ []

abbrev pub waiting_job : Job
waiting_job = record {
  id = 3;
  rfp_id = some 1;
  priority = 10;
  status = JobStatus.queued;
  locked_at = none;
  locked_by = none;
  enqueued_at = 4;
  started_at = none;
  finished_at = none;
}

abbrev pub parked_job : Job
parked_job = record waiting_job { id = 4; priority = 0; enqueued_at = 1 }

abbrev pub silent_run : ExtractionRun
silent_run = record {
  id = 6;
  rfp_id = 1;
  stage = Stage.extracting;
  heartbeat_at = 0;
  attempt = 2;
  error = none;
  created_at = 0;
}

abbrev pub plant : Session
plant = record twelve_rows { jobs = parked_job ∷ waiting_job ∷ []; runs = silent_run ∷ [] }
