-- ===== src/Pipeline/TextUtils.antt =====
-- app/pipeline/text_utils.py: `levenshtein_distance` and `fuzzy_contains`. A text is the list of its
-- code points, and the arrays of the distance are lists. The ratio 0.10 is the fraction 1 / 10.
pub mod Distance
pub mod Containment
pub mod Normalize
use rfp_shred.Prelude.{
  Bool, List, Option, Text, [], false, first, if◌then◌else◌, length, ltb, min, none, not, some,
  true, ℕ, ◌+◌, ◌-◌, ◌/◌, ◌==◌, ◌∷◌,
}

-- `0 if a[i - 1] == bj else 1`
abbrev pub substitution : ℕ → ℕ → ℕ
substitution x y = if x == y then 0 else 1

-- The inner loop: the rest of the row for `bj`, from `left`, the entry before, and `previous`, the
-- row before from that entry on.
unfoldable pub fill_row : ℕ → Text → ℕ → List ℕ → List ℕ
fill_row bj [] left previous = []
fill_row bj (x ∷ a) left [] = []
fill_row bj (x ∷ a) left (diagonal ∷ []) = []
fill_row bj (x ∷ a) left (diagonal ∷ up ∷ previous) =
    let entry = min (up + 1) (min (left + 1) (diagonal + substitution x bj)) in
    entry ∷ fill_row bj a entry (up ∷ previous)

-- `[j] + ...`, the whole row.
abbrev pub next_row : ℕ → ℕ → Text → List ℕ → List ℕ
next_row j bj a previous = j ∷ fill_row bj a j previous

unfoldable pub row_min : List ℕ → ℕ
row_min [] = 0
row_min (n ∷ []) = n
row_min (n ∷ m ∷ ns) = min n (row_min (m ∷ ns))

unfoldable pub last : List ℕ → ℕ
last [] = 0
last (n ∷ []) = n
last (n ∷ m ∷ ns) = last (m ∷ ns)

-- `cutoff is not None and row_min > cutoff`
abbrev pub exceeds : ℕ → Option ℕ → Bool
exceeds n none = false
exceeds n (some c) = ltb c n

abbrev pub capped : Option ℕ → ℕ
capped none = 0
capped (some c) = c + 1

-- The outer loop, over the rest of `b`: the first of them has the number `j`.
unfoldable pub rows_from : ℕ → Option ℕ → Text → Text → List ℕ → ℕ
unfolding fill_row row_min last
rows_from j cutoff a [] previous = last previous
rows_from j cutoff a (bj ∷ b) previous =
    let current = next_row j bj a previous in
    let rest = rows_from (j + 1) cutoff a b current in
    if exceeds (row_min current) cutoff then capped cutoff else rest

-- `list(range(la + 1))`, from `n` on.
unfoldable pub first_row : ℕ → Text → List ℕ
first_row n [] = n ∷ []
first_row n (x ∷ a) = n ∷ first_row (n + 1) a

unfoldable pub text_eq : Text → Text → Bool
text_eq [] [] = true
text_eq [] (y ∷ b) = false
text_eq (x ∷ a) [] = false
text_eq (x ∷ a) (y ∷ b) = if x == y then text_eq a b else false

-- `abs(la - lb)`
abbrev pub length_gap : Text → Text → ℕ
length_gap a b = (length a - length b) + (length b - length a)

abbrev pub by_rows : Option ℕ → Text → Text → ℕ
by_rows cutoff a b = rows_from 1 cutoff a b (first_row 0 a)

unfoldable pub levenshtein_distance : Text → Text → Option ℕ → ℕ
unfolding rows_from first_row text_eq
levenshtein_distance a b cutoff =
    if text_eq a b
    then 0
    else if exceeds (length_gap a b) cutoff
    then capped cutoff
    else if ltb (length b) (length a)
    then by_rows cutoff b a
    else by_rows cutoff a b
