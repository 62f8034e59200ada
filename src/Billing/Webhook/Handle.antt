-- ===== src/Billing/Webhook/Handle.antt =====
-- app/billing/webhook.py: `handle_webhook`, from the verified payload to the status code. The
-- request's session is committed after every reply, a 500 included, since nothing is raised.
use rfp_shred.Prelude.{
  ℕ, ◌+◌, Bool, Option, none, some, String, str_eq, [], ◌∷◌, ◌++◌, update_first, leb, first,
  if◌then◌else◌,
}
use rfp_shred.Models
use rfp_shred.Models.{Session, StripeEvent, StripeStatus, EntityId, of_text, audit}
use rfp_shred.Billing.Webhook.Event.{Event, Outcome, Result, returned, raised}
use rfp_shred.Billing.Webhook.Process.{Env, process_event}

pub data Reply : Type 0 where
  bad_signature invalid_json missing_event_id already_processed dead_lettered : Reply
  processing_failed : Reply
  done : Outcome → Reply

unfoldable pub http_status : Reply → ℕ
http_status bad_signature = 400
http_status invalid_json = 400
http_status missing_event_id = 400
http_status already_processed = 200
http_status dead_lettered = 200
http_status processing_failed = 500
http_status (done o) = 200

abbrev pub max_attempts : ℕ
max_attempts = 3

abbrev pub find_event : Session → String → Option StripeEvent
find_event s i = first (λ (e : StripeEvent). str_eq e.event_id i) s.stripe_events

abbrev pub update_event : String → (StripeEvent → StripeEvent) → Session → Session
update_event i f s = record s {
  stripe_events = update_first (λ (e : StripeEvent). str_eq e.event_id i) f s.stripe_events;
}

abbrev pub new_event : String → StripeEvent
new_event i = record {
  event_id = i;
  processed_at = none;
  status = StripeStatus.processing;
  attempts = 0;
}

-- `record.attempts += 1`, and the dead letter at the limit.
abbrev pub count_failure : StripeEvent → StripeEvent
count_failure e =
    if leb max_attempts (e.attempts + 1)
    then record e { attempts = e.attempts + 1; status = StripeStatus.dead_lettered }
    else record e { attempts = e.attempts + 1 }

-- The `except` branch. `e` is the event's row as it was before the handler ran.
abbrev pub fail_event : StripeEvent → Session → Session
fail_event e s =
    let s' = update_event e.event_id count_failure s in
    if leb max_attempts (e.attempts + 1)
    then audit Models.Action.stripe_event_dead_lettered (of_text e.event_id) none s'
    else s'

module _ (env : Env) where
  abbrev pub mark_processed : StripeEvent → StripeEvent
  mark_processed e = record e { status = StripeStatus.processed; processed_at = some env.now }

  abbrev pub conclude : StripeEvent → Result → Reply × Session
  conclude e (returned o s) = (done o, update_event e.event_id mark_processed s)
  conclude e (raised s) = (processing_failed, fail_event e s)

  -- The part of `handle_webhook` that runs the handlers for the row `e` of the event.
  abbrev pub attempt : StripeEvent → Event → Session → Reply × Session
  attempt e event s = conclude e (process_event env event s)

  abbrev pub by_status : StripeStatus → StripeEvent → Event → Session → Reply × Session
  by_status StripeStatus.processed e event s = (already_processed, s)
  by_status StripeStatus.dead_lettered e event s = (dead_lettered, s)
  by_status StripeStatus.processing e event s = attempt e event s

  abbrev pub for_event : Option StripeEvent → Event → Session → Reply × Session
  for_event none event s =
      attempt (new_event event.id) event
        (record s { stripe_events = s.stripe_events ++ new_event event.id ∷ [] })
  for_event (some e) event s = by_status e.status e event s

  abbrev pub handle_event : Option Event → Session → Reply × Session
  handle_event none s = (invalid_json, s)
  handle_event (some event) s =
      if str_eq event.id ""
      then (missing_event_id, s)
      else for_event (find_event s event.id) event s

  -- `verified` says whether `verify_signature` returned, `parsed` is `json.loads(payload)`.
  unfoldable pub handle_webhook : Bool → Option Event → Session → Reply × Session
  handle_webhook verified parsed s = if verified then handle_event parsed s else (bad_signature, s)
