-- ===== src/Pipeline/Transform/Kept.antt =====
-- app/pipeline/transform.py: the rows that a new extraction finds again.
use rfp_shred.Prelude.{
  ==_iff, ==_refl, All, All-map, Bool, Bool-cases, List, Memᴰ, Mem-append_left, Mem-keep, Mem-map,
  All-Mem, first-Mem, Mem-of_keep, keep, Option, [], any, ap, arith, codes, false, false≢true,
  first, if◌then◌else◌, inl, inr, map, none, not, refl, some, sym, true, ℕ, ◌&&◌, ◌+◌, ◌==◌, ◌∙◌,
  ◌∷◌, ◌≡◌, ◌⊎◌, subst,
}
use rfp_shred.Models.{Requirement, RawModelOutput}
use rfp_shred.Pipeline.Items.{MinedItem}
use rfp_shred.Pipeline.TextUtils.{text_eq}
use rfp_shred.Pipeline.TextUtils.Distance.{text_eq-eq, text_eq_refl}
use rfp_shred.Pipeline.TextUtils.Normalize.{Unicode}
use rfp_shred.Pipeline.Transform.{
  push, Key, key_eq, Placement, pop_row, item_key, requirement_key, update_row, place_found, place,
  place_all, settle_row, settle_rows, rewrite_row, replace_matrix, rows_of,
}

key_eq_refl : (k : Key) → key_eq k k ≡ true
unfolding key_eq
key_eq_refl k = rw (text_eq_refl k.clause_id) (rw ==_refl (rw (text_eq_refl k.body) refl))

key_eq-eq : (k l : Key) → key_eq k l ≡ true → k ≡ l
unfolding key_eq
key_eq-eq k l h =
    let one = text_eq-eq k.clause_id l.clause_id (ground arith) in
    let two = (==_iff k.page l.page).0 (ground arith) in
    let three = text_eq-eq k.body l.body (ground arith) in cc

-- What people enter in a row: the response, the tags and the verification.
abbrev pub Entered : Requirement → Requirement → Type 0
Entered old r =
    (r.id ≡ old.id)
    × (r.rfp_id ≡ old.rfp_id)
    × (r.response ≡ old.response)
    × (r.tags ≡ old.tags)
    × (r.verified_at ≡ old.verified_at)

-- What was entered in the row `old` is in a row of the table.
abbrev pub Lives : Requirement → List Requirement → Type 0
Lives old table = (r : Requirement) × Memᴰ r table × Entered old r

Lives-update :
    (old : Requirement) (i : ℕ) (f : Requirement → Requirement) (table : List Requirement)
    → ((r : Requirement) → Entered old r → Entered old (f r))
    → Lives old table
    → Lives old (update_row i f table)
Lives-update old i f table keeps (r, m, e) =
    let set = λ (x : Requirement). if x.id == i then f x else x in
    (set r, Mem-map set r table m, one (r.id == i))
  where
    one : (b : Bool) → Entered old (if b then f r else r)
    one true = keeps r e
    one false = e

-- A row that is kept for its id stays.
abbrev pub IsRetained : Requirement → Placement → Type 0
IsRetained old p = (any (λ i. i == old.id) p.retained ≡ true) × Lives old p.table

module _ (u : Unicode) where
  settle_row-IsRetained :
      (old : Requirement) (seen : List Key) (row : Requirement) (p : Placement)
      → IsRetained old p
      → IsRetained old (settle_row u seen row p)
  settle_row-IsRetained old seen row p (kept, lives) =
      elim (Bool-cases (any (λ i. i == row.id) p.retained)) [
        | inl e ↦ rw e (kept, lives)
        | inr e ↦
            elim (Bool-cases (
              text_eq row.section (codes "(restored)")
              && not (any (key_eq (requirement_key u row)) seen))) [
                | inl k ↦
                    rw (e, k)
                      (
                        ground arith,
                        Lives-update old row.id (λ r. record r { seq = p.seq + 1 }) p.table
                            (λ r h. h) lives,
                      )
                | inr k ↦ rw (e, k) (kept, stays e lives)
              ]
      ]
    where
      other : any (λ i. i == row.id) p.retained ≡ false → (old.id == row.id) ≡ false
      other e = elim (Bool-cases (old.id == row.id)) [
        | inl same ↦
            let eq : old.id ≡ row.id = (==_iff old.id row.id).0 same in
            absurd (false≢true (sym e ∙ subst (λ n. any (λ i. i == n) p.retained ≡ true) eq kept))
        | inr b ↦ b
      ]

      stays :
          any (λ i. i == row.id) p.retained ≡ false
          → Lives old p.table
          → Lives old (keep (λ (r : Requirement). not (r.id == row.id)) p.table)
      stays e (r, m, entered) = (
        r,
        Mem-keep (λ (x : Requirement). not (x.id == row.id)) r p.table
            (let diff = other e in rw (entered.0, diff) refl) m,
        entered,
      )

  pub settle_rows-IsRetained :
      (old : Requirement) (seen : List Key) (rows : List Requirement) (p : Placement)
      → IsRetained old p
      → IsRetained old (settle_rows u seen rows p)
  unfolding settle_rows
  settle_rows-IsRetained old seen [] p h = h
  settle_rows-IsRetained old seen (row ∷ rows) p h =
      settle_rows-IsRetained old seen rows (settle_row u seen row p)
        (settle_row-IsRetained old seen row p h)

  abbrev pub has_key : Key → Requirement → Bool
  has_key k r = key_eq k (requirement_key u r)

  -- The first row with the key is the one that is taken.
  pop_row-first :
      (k : Key) (rows : List Requirement) (old : Requirement)
      → first (has_key k) rows ≡ some old
      → (rest : List Requirement) × (pop_row u k rows ≡ some (old, rest))
  unfolding pop_row
  pop_row-first k [] old h = cc
  pop_row-first k (r ∷ rows) old h = elim (Bool-cases (key_eq k (requirement_key u r))) [
    | inl e ↦
        let found : some r ≡ some old = rw e at h in
        let same : r ≡ old = cc in (rows, rw e (ap (λ x. some (x, rows)) same))
    | inr e ↦
        let (rest, taken) = pop_row-first k rows old (rw e at h) in (r ∷ rest, rw (e, taken) refl)
  ]

  abbrev left_of : List Requirement → Option (Requirement × List Requirement) → List Requirement
  left_of rows none = rows
  left_of rows (some (r, rest)) = rest

  -- The taking of a row with another key leaves the first one with this key.
  pop_row-other :
      (k l : Key) (rows : List Requirement)
      → key_eq k l ≡ false
      → first (has_key k) (left_of rows (pop_row u l rows)) ≡ first (has_key k) rows
  unfolding pop_row
  pop_row-other k l [] diff = refl
  pop_row-other k l (r ∷ rows) diff = elim (Bool-cases (key_eq l (requirement_key u r))) [
    | inl e ↦ rw (e, unlike e) refl
    | inr e ↦ rw e (pushed (pop_row u l rows) (pop_row-other k l rows diff))
  ]
    where
      unlike : key_eq l (requirement_key u r) ≡ true → key_eq k (requirement_key u r) ≡ false
      unlike e = elim (Bool-cases (key_eq k (requirement_key u r))) [
        | inr b ↦ b
        | inl b ↦
            let same : k ≡ l = key_eq-eq k _ b ∙ sym (key_eq-eq l _ e) in
            absurd (false≢true (sym diff ∙ subst (λ x. key_eq k x ≡ true) same (key_eq_refl k)))
      ]

      pushed :
          (o : Option (Requirement × List Requirement))
          → first (has_key k) (left_of rows o) ≡ first (has_key k) rows
          → first (has_key k) (left_of (r ∷ rows) (push r o)) ≡ first (has_key k) (r ∷ rows)
      pushed none h = refl
      pushed (some (q, rest)) h = rw h refl

  module _ (new_row : ℕ → ℕ) (rfp_id : ℕ) (outputs : List RawModelOutput) where
    place_found-IsRetained :
        (old : Requirement) (item : MinedItem) (o : Option (Requirement × List Requirement))
        (p : Placement)
        → IsRetained old p
        → IsRetained old (place_found u new_row rfp_id outputs item o p)
    place_found-IsRetained old item none p (kept, (r, m, e)) =
        (kept, (r, Mem-append_left r p.table _ m, e))
    place_found-IsRetained old item (some (row, pool)) p (kept, lives) = (
      ground arith,
      Lives-update old row.id (rewrite_row u new_row rfp_id outputs (p.seq + 1) item) p.table
          (λ r h. h) lives,
    )

    place_all-IsRetained :
        (old : Requirement) (items : List MinedItem) (p : Placement)
        → IsRetained old p
        → IsRetained old (place_all u new_row rfp_id outputs items p)
    unfolding place_all
    place_all-IsRetained old [] p h = h
    place_all-IsRetained old (item ∷ items) p h =
        place_all-IsRetained old items (place u new_row rfp_id outputs item p)
          (place_found-IsRetained old item (pop_row u (item_key u item) p.pool) p h)

    -- A row that is the first of its key is kept by the first item of that key.
    place_all-takes :
        (k : Key) (old : Requirement) (items : List MinedItem) (p : Placement)
        → first (has_key k) p.pool ≡ some old
        → Lives old p.table
        → any (λ i. key_eq k (item_key u i)) items ≡ true
        → IsRetained old (place_all u new_row rfp_id outputs items p)
    unfolding place_all
    place_all-takes k old [] p found lives h = absurd (false≢true h)
    place_all-takes k old (item ∷ items) p found lives h =
        elim (Bool-cases (key_eq k (item_key u item))) [
          | inl e ↦
              let (rest, taken) = pop_row-first k p.pool old found in
              let popped : pop_row u (item_key u item) p.pool ≡ some (old, rest) =
                ap (λ x. pop_row u x p.pool) (sym (key_eq-eq k _ e)) ∙ taken in
              place_all-IsRetained old items (place u new_row rfp_id outputs item p) (
                rw popped (
                  rw (==_refl old.id) refl,
                  Lives-update old old.id (rewrite_row u new_row rfp_id outputs (p.seq + 1) item)
                      p.table (λ r g. g) lives,
                ))
          | inr e ↦
              let later : any (λ i. key_eq k (item_key u i)) items ≡ true = rw e at h in
              passed (λ q f l. place_all-takes k old items q f l later)
                (pop_row u (item_key u item) p.pool)
                (pop_row-other k (item_key u item) p.pool e ∙ found)
        ]
      where
        passed :
            ((q : Placement)
              → first (has_key k) q.pool ≡ some old
              → Lives old q.table
              → IsRetained old (place_all u new_row rfp_id outputs items q))
            → (o : Option (Requirement × List Requirement))
            → first (has_key k) (left_of p.pool o) ≡ some old
            → IsRetained old (
                place_all u new_row rfp_id outputs items
                  (place_found u new_row rfp_id outputs item o p))
        passed again none f =
            let (r, m, e) = lives in again _ f (r, Mem-append_left r p.table _ m, e)
        passed again (some (row, pool)) f = again _ f (
            Lives-update old row.id (rewrite_row u new_row rfp_id outputs (p.seq + 1) item) p.table
              (λ r g. g) lives)

  any-own :
      (items : List MinedItem) (i : MinedItem)
      → Memᴰ i items
      → any (λ j. key_eq (item_key u i) (item_key u j)) items ≡ true
  any-own [] i m = elim m [ ]
  any-own (j ∷ items) i (Memᴰ.head e) =
      let own : key_eq (item_key u i) (item_key u j) ≡ true =
        subst (λ x. key_eq (item_key u i) (item_key u x) ≡ true) e (key_eq_refl (item_key u i)) in
      rw own refl
  any-own (j ∷ items) i (Memᴰ.tail m) = let later = any-own items i m in ground arith

-- The item is placed: no row of the solicitation had its key, or what was entered in the first row that
-- had it is in a row of the table `after`.
abbrev pub IsPlaced : Unicode → ℕ → List Requirement → List Requirement → MinedItem → Type 0
IsPlaced u rfp_id before after item =
    (first (has_key u (item_key u item)) (rows_of u rfp_id before) ≡ none)
    ⊎ ((old : Requirement) × (first (has_key u (item_key u item)) (rows_of u rfp_id before)
          ≡ some old)
        × Lives old after)

-- `replace_matrix` places every item.
pub replace_matrix-IsPlaced :
    (u : Unicode) (new_row : ℕ → ℕ) (rfp_id : ℕ) (outputs : List RawModelOutput)
    (items : List MinedItem) (table : List Requirement)
    → All
        (IsPlaced u rfp_id table (replace_matrix u new_row rfp_id outputs items table).table)
        items
unfolding replace_matrix
replace_matrix-IsPlaced u new_row rfp_id outputs items table =
    All-map (λ i m. for_row i m (first (has_key u (item_key u i)) (rows_of u rfp_id table)) refl)
      items (All-Mem items)
  where
    for_row :
        (i : MinedItem)
        → Memᴰ i items
        → (o : Option Requirement) → first (has_key u (item_key u i)) (rows_of u rfp_id table) ≡ o
        → IsPlaced u rfp_id table (replace_matrix u new_row rfp_id outputs items table).table i
    for_row i m none found = inl found
    for_row i m (some old) found =
        let here =
          Mem-of_keep (λ (r : Requirement). r.rfp_id == rfp_id) old table
            (first-Mem (has_key u (item_key u i)) (rows_of u rfp_id table) old found) in
        let taken =
          place_all-takes u new_row rfp_id outputs (item_key u i) old items
            (record { seq = 0; pool = rows_of u rfp_id table; retained = []; table = table }) found
            (old, here, (refl, refl, refl, refl, refl)) (any-own u items i m) in
        inr (
          old,
          found,
          (settle_rows-IsRetained u old (map (item_key u) items) (rows_of u rfp_id table) _
              taken).1,
        )
