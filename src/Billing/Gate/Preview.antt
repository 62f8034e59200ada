-- ===== src/Billing/Gate/Preview.antt =====
-- app/billing/entitlement.py: what the preview gate lets through.
use rfp_shred.Prelude.{
  ℕ, ◌+◌, ◌-◌, ◌<◌, ◌≡◌, ◌∙◌, ap, inl, inr, true, false, List, [], ◌++◌, arith, keep, length,
  length-take, length-sort_by, drop, take-append-drop, append-nil, length-drop, sort_by, IsSorted,
  sort_by-IsSorted, Bool-cases,
}
use rfp_shred.Models.{Session, Rfp, Requirement}
use rfp_shred.Billing.Gate.{of_rfp, requirement_count, seq_le, is_entitled, visible_rows}

-- The whole matrix of a solicitation, in the order of its numbers.
abbrev pub matrix : Session → Rfp → List Requirement
matrix s rfp = sort_by seq_le (keep (of_rfp rfp.id) s.requirements)

length-matrix : (s : Session) (rfp : Rfp) → length (matrix s rfp) ≡ requirement_count s rfp.id
unfolding requirement_count
length-matrix s rfp = length-sort_by seq_le (keep (of_rfp rfp.id) s.requirements)

-- A small matrix is open to everybody.
pub locked_needs_more :
    (now : ℕ) (s : Session) (account_id : ℕ) (rfp : Rfp)
    → is_entitled now s account_id rfp ≡ false
    → 10 < requirement_count s rfp.id
unfolding is_entitled
locked_needs_more now s account_id rfp h = ground arith

-- The gate hides rows only at the end and counts each of them: the rows shown and some rest make
-- up the whole matrix in the order of its numbers, and the rest is as long as `locked_count` says.
pub visible_rows_complete :
    (now : ℕ) (s : Session) (account_id : ℕ) (rfp : Rfp)
    → (rest : List Requirement) × ((visible_rows now s account_id rfp).rows ++ rest ≡ matrix s rfp)
      × (length rest ≡ (visible_rows now s account_id rfp).locked_count)
unfolding visible_rows
visible_rows_complete now s account_id rfp = elim (Bool-cases (is_entitled now s account_id rfp)) [
  | inl e ↦ rw e ([], append-nil _, omega arith)
  | inr e ↦ rw e (
    drop 10 (matrix s rfp),
    take-append-drop 10 (matrix s rfp),
    length-drop 10 (matrix s rfp) ∙ ap (λ n. n - 10) (length-matrix s rfp),
  )
]

-- Whoever is not entitled sees exactly ten rows, the matrix has more, and the rows that are shown
-- and those that are counted as locked add up to all of its rows.
visible_rows-locked :
    (now : ℕ) (s : Session) (account_id : ℕ) (rfp : Rfp)
    → is_entitled now s account_id rfp ≡ false
    → (length (visible_rows now s account_id rfp).rows ≡ 10)
      × (0 < (visible_rows now s account_id rfp).locked_count)
      × (10 + (visible_rows now s account_id rfp).locked_count ≡ requirement_count s rfp.id)
unfolding visible_rows
visible_rows-locked now s account_id rfp h =
    let more = locked_needs_more now s account_id rfp h in
    let size = length-matrix s rfp in
    let shown = length-take 10 (matrix s rfp) in
    rw h (omega (arith, more, size, shown), omega (arith, more), omega (arith, more))

seq_le-total : (r q : Requirement) → seq_le r q ≡ false → seq_le q r ≡ true
seq_le-total r q h = ground arith

seq_le_trans : (r q p : Requirement) → seq_le r q ≡ true → seq_le q p ≡ true → seq_le r p ≡ true
seq_le_trans r q p h k = ground arith

pub matrix-IsSorted : (s : Session) (rfp : Rfp) → IsSorted seq_le (matrix s rfp)
matrix-IsSorted s rfp = sort_by-IsSorted seq_le seq_le-total seq_le_trans _
