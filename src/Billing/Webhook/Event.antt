-- ===== src/Billing/Webhook/Event.antt =====
-- app/billing/webhook.py: the events, their outcomes, and the lookups that the handlers share.
use rfp_shred.Prelude.{
  ℕ, ◌+◌, Bool, true, false, Option, none, some, String, str_eq, List, [], ◌∷◌, map, ltb, ◌==◌,
  ◌&&◌, if◌then◌else◌, any, first, update_first, max,
}
use rfp_shred.Models.{
  of_none, of_number, Session, Entitlement, Kind, single, plan, Rfp, AuditEvent, Action, EntityId,
  of_uuid, of_text, days, seconds,
}

pub data EventType : Type 0 where
  checkout_session_completed invoice_paid invoice_payment_failed : EventType
  subscription_deleted subscription_updated other : EventType

-- `event["data"]["object"]`, its `metadata` included. `kind` is absent or one of the two values
-- that checkout.py writes and that the table admits. `lines` holds `period.end` of each line.
pub record Obj : Type 0 where
  pub id : String
  pub subscription : String
  pub rfp_id : String
  pub account_id : String
  pub kind : Option Kind
  pub status : Option String
  pub period_end : Option ℕ
  pub current_period_end : Option ℕ
  pub lines : List (Option ℕ)

pub record Event : Type 0 where
  pub id : String
  pub type : EventType
  pub obj : Obj

pub data Outcome : Type 0 where
  entitlement_granted stored_canceled_plan plan_extended plan_payment_confirmed : Outcome
  stored_no_matching_plan plan_marked_inactive plan_canceled plan_synced stored_unhandled : Outcome

-- What a handler does: it returns an outcome or raises, and leaves a session behind.
pub data Result : Type 0 where
  returned : Outcome → Session → Result
  raised : Session → Result

abbrev pub session_of : Result → Session
session_of (returned o s) = s
session_of (raised s) = s

abbrev pub plan_period_days : ℕ
plan_period_days = 30

-- `_plan_extend`
abbrev pub plan_extend : ℕ → Option ℕ → ℕ
plan_extend now none = now + days plan_period_days
plan_extend now (some t) = (if ltb now t then t else now) + days plan_period_days

-- A time stamp of zero is as good as none: Python's `if value`.
abbrev pub truthy : Option ℕ → Option ℕ
truthy none = none
truthy (some v) = if v == 0 then none else some v

abbrev max_candidate : Option ℕ → Option ℕ → Option ℕ
max_candidate none m = m
max_candidate (some v) none = some (seconds v)
max_candidate (some v) (some m) = some (max (seconds v) m)

-- `_event_period_end`: the latest of the instants that the event carries.
latest : List (Option ℕ) → Option ℕ
latest [] = none
latest (v ∷ vs) = max_candidate (truthy v) (latest vs)

unfoldable pub event_period_end : Obj → Option ℕ
unfolding latest
event_period_end obj = latest (obj.period_end ∷ obj.current_period_end ∷ obj.lines)

abbrev pub is_plan_canceled : Action → Bool
is_plan_canceled Action.plan_canceled = true
is_plan_canceled _ = false

abbrev pub names_uuid : ℕ → EntityId → Bool
names_uuid i (of_uuid j) = j == i
names_uuid i (of_text t) = false
names_uuid i (of_number n) = false
names_uuid i of_none = false

abbrev pub is_tombstone : ℕ → AuditEvent → Bool
is_tombstone i e = is_plan_canceled e.action && names_uuid i e.entity_id

-- `_plan_was_canceled`
unfoldable pub plan_was_canceled : Session → ℕ → Bool
plan_was_canceled s i = any (is_tombstone i) s.audit_events

abbrev pub is_plan : Kind → Bool
is_plan plan = true
is_plan single = false

abbrev pub has_ref : String → Option String → Bool
has_ref ref none = false
has_ref ref (some r) = str_eq r ref

-- The plan that a subscription id refers to.
unfoldable pub find_plan : Session → String → Option Entitlement
find_plan s ref = first (λ e. is_plan e.kind && has_ref ref e.stripe_ref) s.entitlements

-- An assignment to a row's attributes reaches the row with that id.
abbrev pub update_entitlement : ℕ → (Entitlement → Entitlement) → Session → Session
update_entitlement i f s = record s {
  entitlements = map (λ (e : Entitlement). if e.id == i then f e else e) s.entitlements;
}

abbrev pub update_rfp : ℕ → (Rfp → Rfp) → Session → Session
update_rfp i f s = record s { rfps = update_first (λ (r : Rfp). r.id == i) f s.rfps }

abbrev pub find_rfp : Session → ℕ → Option Rfp
find_rfp s i = first (λ (r : Rfp). r.id == i) s.rfps

-- `_apply_paid_period`: the new `period_end`, and whether it changed.
unfoldable pub paid_period : ℕ → Option ℕ → Option ℕ → Option ℕ × Bool
paid_period now none none = (some (now + days plan_period_days), true)
paid_period now none (some c) = (some c, true)
paid_period now (some t) (some c) = if ltb t c then (some c, true) else (some t, false)
paid_period now (some t) none =
    if ltb now t then (some t, false) else (some (now + days plan_period_days), true)
