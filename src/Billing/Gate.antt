-- ===== src/Billing/Gate.antt =====
-- app/billing/entitlement.py. A query is a pass over the table in insertion order; `now` is the
-- instant that the call reads from the clock.
pub mod Preview
use rfp_shred.Prelude.{
  ℕ, ◌-◌, Bool, true, false, Option, none, some, List, ltb, leb, ◌==◌, ◌&&◌, not, if◌then◌else◌,
  any, keep, length, take, is_some, sort_by,
}
use rfp_shred.Models.{Session, Rfp, Entitlement, Requirement, Kind, single, plan}

abbrev pub free_row_limit : ℕ
free_row_limit = 10

-- `order_by(Requirement.seq.asc())`
abbrev pub seq_le : Requirement → Requirement → Bool
seq_le r q = leb r.seq q.seq

abbrev pub of_rfp : ℕ → Requirement → Bool
of_rfp rfp_id r = r.rfp_id == rfp_id

unfoldable pub requirement_count : Session → ℕ → ℕ
requirement_count s rfp_id = length (keep (of_rfp rfp_id) s.requirements)

abbrev is_single : Kind → Bool
is_single single = true
is_single plan = false

abbrev pub same_id : Option ℕ → ℕ → Bool
same_id none j = false
same_id (some i) j = i == j

-- The `where` clause of the first query.
unfoldable pub opens_single : ℕ → ℕ → Entitlement → Bool
opens_single account_id rfp_id e =
    e.account_id == account_id && is_single e.kind && same_id e.rfp_id rfp_id && e.active

abbrev pub after : ℕ → Option ℕ → Bool
after now none = true
after now (some t) = ltb now t

-- The `where` clause of the second query.
unfoldable pub opens_plan : ℕ → ℕ → Entitlement → Bool
opens_plan now account_id e =
    e.account_id == account_id && not (is_single e.kind) && e.active && after now e.period_end

unfoldable pub is_entitled : ℕ → Session → ℕ → Rfp → Bool
is_entitled now s account_id rfp =
    if is_some rfp.unlocked_at
    then true
    else if rfp.account_id == account_id && any (opens_single account_id rfp.id) s.entitlements
    then true
    else if any (opens_plan now account_id) s.entitlements
    then true
    else leb (requirement_count s rfp.id) free_row_limit

-- The tuple `(rows, locked_count, entitled)`.
pub record Visible : Type 0 where
  pub rows : List Requirement
  pub locked_count : ℕ
  pub entitled : Bool

unfoldable pub visible_rows : ℕ → Session → ℕ → Rfp → Visible
visible_rows now s account_id rfp =
    let rows = sort_by seq_le (keep (of_rfp rfp.id) s.requirements) in
    if is_entitled now s account_id rfp
    then record { rows = rows; locked_count = 0; entitled = true }
    else record {
      rows = take free_row_limit rows;
      locked_count = requirement_count s rfp.id - free_row_limit;
      entitled = false;
    }
