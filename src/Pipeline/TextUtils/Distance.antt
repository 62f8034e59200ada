-- ===== src/Pipeline/TextUtils/Distance.antt =====
-- app/pipeline/text_utils.py: the row by row computation beside the recurrence of the distance.
use rfp_shred.Prelude.{
  ==_refl, ==_iff, All, All-map, Bool-cases, List, Text, [], ap, arith, false, inl, inr, length,
  ltb, ltb→lt, min, none, refl, reverse_onto, some, subst, suc, sym, true, ℕ, ◌+◌, ◌<◌, ◌==◌, ◌∙◌,
  ◌∷◌, ◌≡◌, ◌≤◌,
}
use rfp_shred.Pipeline.TextUtils.{
  length_gap, levenshtein_distance, by_rows, text_eq, row_min, next_row, substitution, rows_from,
  last, first_row, fill_row,
}

-- The distance by its recurrence on the last characters. The arguments are the two texts from
-- their last character to their first.
unfoldable pub distance : Text → Text → ℕ
distance [] b = length b
distance (x ∷ a) [] = length (x ∷ a)
distance (x ∷ a) (y ∷ b) =
    min (distance (x ∷ a) b + 1) (min (distance a (y ∷ b) + 1) (distance a b + substitution x y))

-- The entries of a row behind the first: the distances of the longer and longer prefixes of `a`,
-- the first of which is the reverse of `ra`.
row_tail : Text → Text → Text → List ℕ
row_tail ra [] rb = []
row_tail ra (x ∷ a) rb = distance (x ∷ ra) rb ∷ row_tail (x ∷ ra) a rb

fill_row-row :
    (y : ℕ) (a ra rb : Text)
    → fill_row y a (distance ra (y ∷ rb)) (distance ra rb ∷ row_tail ra a rb)
      ≡ row_tail ra a (y ∷ rb)
unfolding fill_row row_tail distance
fill_row-row y [] ra rb = refl
fill_row-row y (x ∷ a) ra rb =
    ap (λ r. distance (x ∷ ra) (y ∷ rb) ∷ r) (fill_row-row y a (x ∷ ra) rb)

distance-nil : (a : Text) → distance a [] ≡ length a
unfolding distance
distance-nil [] = refl
distance-nil (x ∷ a) = refl

first_row-row :
    (a ra : Text) (n : ℕ) → n ≡ length ra → first_row n a ≡ distance ra [] ∷ row_tail ra a []
unfolding first_row row_tail
first_row-row [] ra n e = ap (λ k. k ∷ []) (e ∙ sym (distance-nil ra))
first_row-row (y ∷ a) ra n e =
    cc (e, distance-nil ra, first_row-row a (y ∷ ra) (n + 1) (omega arith))

next_row-row :
    (y j : ℕ) (a rb : Text)
    → j ≡ suc (length rb)
    → next_row j y a (distance [] rb ∷ row_tail [] a rb)
      ≡ distance [] (y ∷ rb) ∷ row_tail [] a (y ∷ rb)
unfolding distance
next_row-row y j a rb e = rw e (ap (λ r. suc (length rb) ∷ r) (fill_row-row y a [] rb))

last-row :
    (a ra rb : Text) → last (distance ra rb ∷ row_tail ra a rb) ≡ distance (reverse_onto a ra) rb
unfolding last row_tail
last-row [] ra rb = refl
last-row (x ∷ a) ra rb = last-row a (x ∷ ra) rb

-- With no cutoff the loop ends with the distance of the whole texts.
rows_from-distance :
    (b a rb : Text) (j : ℕ)
    → j ≡ suc (length rb)
    → rows_from j none a b (distance [] rb ∷ row_tail [] a rb)
      ≡ distance (reverse_onto a []) (reverse_onto b rb)
unfolding rows_from
rows_from-distance [] a rb j e = last-row a [] rb
rows_from-distance (y ∷ b) a rb j e =
    ap (rows_from (j + 1) none a b) (next_row-row y j a rb e)
    ∙ rows_from-distance b a (y ∷ rb) (j + 1) (omega arith)

-- Every entry of a row is at least `m`.
abbrev AtLeast : ℕ → List ℕ → Type 0
AtLeast m ns = All (λ n. m ≤ n) ns

fill_row-AtLeast :
    (m y left : ℕ) (a : Text) (ns : List ℕ)
    → AtLeast m ns
    → m ≤ left
    → AtLeast m (fill_row y a left ns)
unfolding fill_row
fill_row-AtLeast m y left [] ns h l = tt
fill_row-AtLeast m y left (x ∷ a) [] h l = tt
fill_row-AtLeast m y left (x ∷ a) (d ∷ []) h l = tt
fill_row-AtLeast m y left (x ∷ a) (d ∷ u ∷ ns) h l =
    let entry : m ≤ min (u + 1) (min (left + 1) (d + substitution x y)) =
      omega (arith, h.0, h.1.0) in
    (
      entry,
      fill_row-AtLeast m y (min (u + 1) (min (left + 1) (d + substitution x y))) a (u ∷ ns) h.1
          entry,
    )

last-AtLeast : (m n : ℕ) (ns : List ℕ) → AtLeast m (n ∷ ns) → m ≤ last (n ∷ ns)
unfolding last
last-AtLeast m n [] h = h.0
last-AtLeast m n (k ∷ ns) h = last-AtLeast m k ns h.1

row_min-AtLeast : (n : ℕ) (ns : List ℕ) → AtLeast (row_min (n ∷ ns)) (n ∷ ns)
unfolding row_min
row_min-AtLeast n [] = (omega arith, tt)
row_min-AtLeast n (k ∷ ns) =
    (omega arith, All-map (λ q h. omega arith) (k ∷ ns) (row_min-AtLeast k ns))

rows_from-AtLeast :
    (m j : ℕ) (a b : Text) (n : ℕ) (ns : List ℕ)
    → m ≤ j
    → AtLeast m (n ∷ ns)
    → m ≤ rows_from j none a b (n ∷ ns)
unfolding rows_from
rows_from-AtLeast m j a [] n ns l h = last-AtLeast m n ns h
rows_from-AtLeast m j a (y ∷ b) n ns l h =
    rows_from-AtLeast m (j + 1) a b j (fill_row y a j (n ∷ ns)) (omega arith)
      (l, fill_row-AtLeast m y j a (n ∷ ns) h l)

-- A cutoff replaces a distance above it by the number after it, and changes no other.
abbrev pub Cut : ℕ → ℕ → ℕ → Type 0
Cut c exact r = (exact ≤ c → r ≡ exact) × (c < exact → c < r)

rows_from-Cut :
    (c j : ℕ) (a b : Text) (n : ℕ) (ns : List ℕ)
    → Cut c (rows_from j none a b (n ∷ ns)) (rows_from j (some c) a b (n ∷ ns))
unfolding rows_from
rows_from-Cut c j a [] n ns = (λ h. refl, λ h. h)
rows_from-Cut c j a (y ∷ b) n ns =
    let row = fill_row y a j (n ∷ ns) in
    elim (Bool-cases (ltb c (row_min (j ∷ row)))) [
      | inl e ↦
          let low = row_min-AtLeast j row in
          let over = ltb→lt c (row_min (j ∷ row)) e in
          let above : c < rows_from (j + 1) none a b (j ∷ row) =
            rows_from-AtLeast (suc c) (j + 1) a b j row (omega (arith, low.0, over))
              (All-map (λ q h. omega (arith, over)) (j ∷ row) low) in
          rw e (λ h. absurd (omega arith), λ h. omega arith)
      | inr e ↦ rw e (rows_from-Cut c (j + 1) a b j row)
    ]

distance_comm : (a b : Text) → distance a b ≡ distance b a
unfolding distance
distance_comm [] [] = refl
distance_comm [] (y ∷ b) = refl
distance_comm (x ∷ a) [] = refl
distance_comm (x ∷ a) (y ∷ b) =
    ground (arith, distance_comm (x ∷ a) b, distance_comm a (y ∷ b), distance_comm a b)

distance_self : (a : Text) → distance a a ≡ 0
unfolding distance
distance_self [] = refl
distance_self (x ∷ a) = ground (arith, distance_self a)

-- The distance is at least the difference of the lengths.
length-le-distance : (a b : Text) → length a ≤ distance a b + length b
unfolding distance
length-le-distance [] b = omega arith
length-le-distance (x ∷ a) [] = omega arith
length-le-distance (x ∷ a) (y ∷ b) =
    omega
      (arith, length-le-distance (x ∷ a) b, length-le-distance a (y ∷ b), length-le-distance a b)

pub text_eq_refl : (t : Text) → text_eq t t ≡ true
unfolding text_eq
text_eq_refl [] = refl
text_eq_refl (x ∷ t) = rw ==_refl (text_eq_refl t)

pub text_eq-eq : (a b : Text) → text_eq a b ≡ true → a ≡ b
unfolding text_eq
text_eq-eq [] [] h = refl
text_eq-eq [] (y ∷ b) h = cc
text_eq-eq (x ∷ a) [] h = cc
text_eq-eq (x ∷ a) (y ∷ b) h = elim (Bool-cases (x == y)) [
  | inl e ↦ cc ((==_iff x y).0 e, text_eq-eq a b (rw e at h))
  | inr e ↦ let no_match : false ≡ true = rw e at h in cc
]

length-reverse_onto : (a b : Text) → length (reverse_onto a b) ≡ length a + length b
length-reverse_onto [] b = omega arith
length-reverse_onto (x ∷ a) b = omega (arith, length-reverse_onto a (x ∷ b))

-- The Levenshtein distance of two texts.
pub levenshtein : Text → Text → ℕ
levenshtein a b = distance (reverse_onto a []) (reverse_onto b [])

by_rows-none : (a b : Text) → by_rows none a b ≡ levenshtein a b
unfolding levenshtein
by_rows-none a b =
    ap (rows_from 1 none a b) (first_row-row a [] 0 refl)
    ∙ rows_from-distance b a [] 1 (omega arith)

by_rows-Cut : (c : ℕ) (a b : Text) → Cut c (levenshtein a b) (by_rows (some c) a b)
by_rows-Cut c a b =
    let row = first_row-row a [] 0 refl in
    subst (λ d. Cut c d (by_rows (some c) a b)) (by_rows-none a b)
      (subst (λ r. Cut c (rows_from 1 none a b r) (rows_from 1 (some c) a b r)) (sym row)
        (rows_from-Cut c 1 a b _ _))

-- With no cutoff the function returns the Levenshtein distance.
pub levenshtein_distance-exact : (a b : Text) → levenshtein_distance a b none ≡ levenshtein a b
unfolding levenshtein_distance
levenshtein_distance-exact a b = elim (Bool-cases (text_eq a b)) [
  | inl e ↦ rw e (rw (text_eq-eq a b e) (unfold levenshtein in sym (distance_self _)))
  | inr e ↦ rw e (elim (Bool-cases (ltb (length b) (length a))) [
    | inl k ↦ rw k (by_rows-none b a ∙ (unfold levenshtein in distance_comm _ _))
    | inr k ↦ rw k (by_rows-none a b)
  ])
]

pub cutoff-Cut : (c : ℕ) (a b : Text) → Cut c (levenshtein a b) (levenshtein_distance a b (some c))
unfolding levenshtein_distance
cutoff-Cut c a b = elim (Bool-cases (text_eq a b)) [
  | inl e ↦ rw e (rw (text_eq-eq a b e) (unfold levenshtein in zero_Cut (distance_self _)))
  | inr e ↦ rw e (elim (Bool-cases (ltb c (length_gap a b))) [
    | inl k ↦ rw k (unfold levenshtein in gap_Cut k)
    | inr k ↦ rw k (elim (Bool-cases (ltb (length b) (length a))) [
      | inl l ↦ rw l (subst (λ d. Cut c d (by_rows (some c) b a)) (swapped) (by_rows-Cut c b a))
      | inr l ↦ rw l (by_rows-Cut c a b)
    ])
  ])
]
  where
    zero_Cut : {d : ℕ} → d ≡ 0 → Cut c d 0
    zero_Cut h = (λ _. sym h, λ l. absurd (omega arith))

    swapped : levenshtein b a ≡ levenshtein a b
    swapped = unfold levenshtein in distance_comm _ _

    gap_Cut :
        ltb c (length_gap a b) ≡ true
        → Cut c (distance (reverse_onto a []) (reverse_onto b [])) (c + 1)
    gap_Cut k =
        let over = ltb→lt c (length_gap a b) k in
        let one = length-le-distance (reverse_onto a []) (reverse_onto b []) in
        let two = length-le-distance (reverse_onto b []) (reverse_onto a []) in
        let same = distance_comm (reverse_onto a []) (reverse_onto b []) in
        let la = length-reverse_onto a [] in
        let lb = length-reverse_onto b [] in
        let above : c < distance (reverse_onto a []) (reverse_onto b []) =
          omega (arith, over, one, two, same, la, lb) in
        (λ h. absurd (omega (arith, above)), λ _. omega arith)

Cut-min : (c exact r : ℕ) → Cut c exact r → min r (c + 1) ≡ min exact (c + 1)
Cut-min c exact r cut = elim (Bool-cases (ltb c exact)) [
  | inl e ↦ let over = ltb→lt c exact e in let high = cut.1 over in omega (arith, over, high)
  | inr e ↦ ap (λ n. min n (c + 1)) (cut.0 (ground arith))
]

-- With a cutoff the function is exact up to it, and returns a number above it exactly if
-- the distance is above it: counted up to one more than the cutoff, the two agree.
levenshtein_distance_cutoff :
    (c : ℕ) (a b : Text)
    → min (levenshtein_distance a b (some c)) (c + 1) ≡ min (levenshtein a b) (c + 1)
levenshtein_distance_cutoff c a b = Cut-min c _ _ (cutoff-Cut c a b)
