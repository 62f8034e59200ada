-- ===== src/Pipeline/TextUtils/Containment.antt =====
-- app/pipeline/text_utils.py: `fuzzy_contains`. The matching blocks are those of `difflib`, a
-- parameter. The ratio of a window is its distance over the length of the excerpt, so `ratio <= 0.10`
-- is `10 * distance <= length`. The set of starts is the list in which they are found: its order
-- decides which window is named in the reason, and not whether the check passes.
use rfp_shred.Prelude.{
  false≢true, ==_iff, ==_refl, Bool, Bool-cases, List, Option, Text, [], ap, arith, drop, false,
  if◌then◌else◌, inl, inr, leb, leb→le, length, ltb, max, min, none, refl, some, sort_by, suc, take,
  true, zero, ℕ, ◌&&◌, ◌*◌, ◌++◌, ◌+◌, ◌-◌, ◌/◌, ◌<◌, ◌==◌, ◌∷◌, ◌≡◌, ◌≢◌, ◌≤◌, ◌⊎◌,
}
use rfp_shred.Pipeline.TextUtils.{levenshtein_distance}
use rfp_shred.Pipeline.TextUtils.Distance.{levenshtein, cutoff-Cut}

pub record Block : Type 0 where
  pub a : ℕ
  pub b : ℕ
  pub size : ℕ

pub data Detail : Type 0 where
  empty_excerpt no_page_text substring no_anchor : Detail
  fuzzy_distance best_distance : ℕ → Detail

unfoldable pub starts_with : Text → Text → Bool
starts_with [] t = true
starts_with (x ∷ e) [] = false
starts_with (x ∷ e) (y ∷ t) = if x == y then starts_with e t else false

-- `excerpt in page_text`
unfoldable pub contains : Text → Text → Bool
unfolding starts_with
contains e [] = starts_with e []
contains e (y ∷ t) = if starts_with e (y ∷ t) then true else contains e t

abbrev pub cutoff_for : Text → ℕ
cutoff_for excerpt = max 1 (length excerpt / 10)

abbrev pub larger : Block → Block → Bool
larger p q = leb q.size p.size

-- The starts `anchor + offset` for the offsets from -4 to 4 that lie on the page. `o` is the offset
-- plus four, and `n` the number of offsets left.
unfoldable pub starts_near : ℕ → ℕ → Text → Block → List ℕ
starts_near zero o page block = []
starts_near (suc n) o page block =
    let rest = starts_near n (o + 1) page block in
    if leb (block.a + 4) (block.b + o) && ltb (block.b + o - (block.a + 4)) (length page)
    then (block.b + o - (block.a + 4)) ∷ rest
    else rest

unfoldable pub starts_of : ℕ → Text → List Block → List ℕ
unfolding starts_near
starts_of min_anchor page [] = []
starts_of min_anchor page (block ∷ blocks) =
    let rest = starts_of min_anchor page blocks in
    if ltb block.size min_anchor then rest else starts_near 9 0 page block ++ rest

abbrev pub window : Text → Text → ℕ → Text
window excerpt page start = take (length excerpt) (drop start page)

abbrev pub better : ℕ → Option ℕ → Option ℕ
better d none = some d
better d (some b) = if ltb d b then some d else some b

abbrev pub verdict : Option ℕ → Bool × Detail
verdict none = (false, no_anchor)
verdict (some d) = (false, best_distance d)

-- The loop over the starts.
unfoldable pub scan : Text → Text → Option ℕ → List ℕ → Bool × Detail
scan excerpt page best [] = verdict best
scan excerpt page best (start ∷ starts) =
    let dist =
      levenshtein_distance excerpt (window excerpt page start) (some (cutoff_for excerpt)) in
    let rest = scan excerpt page (better dist best) starts in
    if leb (10 * dist) (max 1 (length excerpt)) then (true, fuzzy_distance dist) else rest

module _ (matching_blocks : Text → Text → List Block) where
  abbrev pub candidate_starts : Text → Text → List ℕ
  candidate_starts excerpt page =
      starts_of (max 2 (min 6 (length excerpt / 2))) page
        (take 8 (sort_by larger (matching_blocks excerpt page)))

  unfoldable pub fuzzy_contains : Text → Text → Bool × Detail
  fuzzy_contains [] page = (false, empty_excerpt)
  fuzzy_contains (x ∷ e) [] = (false, no_page_text)
  fuzzy_contains (x ∷ e) (y ∷ t) =
      if contains (x ∷ e) (y ∷ t)
      then (true, substring)
      else scan (x ∷ e) (y ∷ t) none (candidate_starts (x ∷ e) (y ∷ t))

-- The page holds the excerpt word for word.
pub record Quotes (excerpt page : Text) : Type 0 where
  pub before : Text
  pub after : Text
  pub splits : page ≡ before ++ (excerpt ++ after)

-- Some stretch of the page, no longer than the excerpt, is within a tenth of it: at most one edit for
-- ten characters.
pub record Resembles (excerpt page : Text) : Type 0 where
  pub start : ℕ
  pub near : 10 * levenshtein excerpt (window excerpt page start) ≤ length excerpt

starts_with-splits : (e t : Text) → starts_with e t ≡ true → (after : Text) × (t ≡ e ++ after)
unfolding starts_with
starts_with-splits [] t h = (t, refl)
starts_with-splits (x ∷ e) [] h = absurd (false≢true h)
starts_with-splits (x ∷ e) (y ∷ t) h = elim (Bool-cases (x == y)) [
  | inl k ↦
      let (after, split) = starts_with-splits e t (rw k at h) in
      (after, cc ((==_iff x y).0 k, split))
  | inr k ↦ let no_match : false ≡ true = rw k at h in absurd (false≢true no_match)
]

contains-Quotes : (e t : Text) → contains e t ≡ true → Quotes e t
unfolding contains
contains-Quotes e [] h =
    let (after, split) = starts_with-splits e [] h in
    record { before = []; after = after; splits = split }
contains-Quotes e (y ∷ t) h = elim (Bool-cases (starts_with e (y ∷ t))) [
  | inl k ↦
      let (after, split) = starts_with-splits e (y ∷ t) k in
      record { before = []; after = after; splits = split }
  | inr k ↦
      let q = contains-Quotes e t (rw k at h) in
      record { before = y ∷ q.before; after = q.after; splits = ap (λ r. y ∷ r) q.splits }
]

scan-Resembles :
    (excerpt page : Text) (best : Option ℕ) (starts : List ℕ)
    → 0 < length excerpt
    → (scan excerpt page best starts).0 ≡ true
    → Resembles excerpt page
unfolding scan
scan-Resembles excerpt page none [] some_text h = absurd (false≢true h)
scan-Resembles excerpt page (some d) [] some_text h = absurd (false≢true h)
scan-Resembles excerpt page best (start ∷ starts) some_text h =
    let w = window excerpt page start in
    let dist = levenshtein_distance excerpt w (some (cutoff_for excerpt)) in
    elim (Bool-cases (leb (10 * dist) (max 1 (length excerpt)))) [
      | inl k ↦
          let cut = cutoff-Cut (cutoff_for excerpt) excerpt w in
          record { start = start; near = near_of_cut dist _ _ some_text (leb→le _ _ k) cut }
      | inr k ↦ scan-Resembles excerpt page (better dist best) starts some_text (rw k at h)
    ]
  where
    near_of_cut :
        (r d n : ℕ)
        → 0 < n
        → 10 * r ≤ max 1 n
        → (d ≤ max 1 (n / 10) → r ≡ d) × (max 1 (n / 10) < d → max 1 (n / 10) < r)
        → 10 * d ≤ n
    near_of_cut r d n pos low cut = elim (Bool-cases (leb d (max 1 (n / 10)))) [
      | inl k ↦ omega (arith, cut.0 (leb→le _ _ k))
      | inr k ↦ absurd (ground (arith, cut.1))
    ]

-- What passes the check is on the page: an excerpt that is accepted is not empty, and the page holds
-- it word for word, or holds a stretch whose Levenshtein distance to it is at most a tenth of
-- its length, whatever blocks `difflib` returns.
pub fuzzy_contains_sound :
    (matching_blocks : Text → Text → List Block) (excerpt page : Text)
    → (fuzzy_contains matching_blocks excerpt page).0 ≡ true
    → (0 < length excerpt) × (Quotes excerpt page ⊎ Resembles excerpt page)
unfolding fuzzy_contains
fuzzy_contains_sound blocks [] page h = absurd (false≢true h)
fuzzy_contains_sound blocks (x ∷ e) [] h = absurd (false≢true h)
fuzzy_contains_sound blocks (x ∷ e) (y ∷ t) h = elim (Bool-cases (contains (x ∷ e) (y ∷ t))) [
  | inl k ↦ (omega arith, inl (contains-Quotes (x ∷ e) (y ∷ t) k))
  | inr k ↦ (omega arith, inr (scan-Resembles (x ∷ e) (y ∷ t) none _ (omega arith) (rw k at h)))
]

starts_with-append : (e after : Text) → starts_with e (e ++ after) ≡ true
unfolding starts_with
starts_with-append [] after = refl
starts_with-append (x ∷ e) after = rw ==_refl (starts_with-append e after)

contains-append : (before e after : Text) → contains e (before ++ (e ++ after)) ≡ true
unfolding contains
contains-append [] [] [] = refl
contains-append [] [] (y ∷ t) = refl
contains-append [] (x ∷ e) after = rw (starts_with-append (x ∷ e) after) refl
contains-append (y ∷ before) e after =
    elim (Bool-cases (starts_with e (y ∷ (before ++ (e ++ after))))) [
      | inl k ↦ rw k refl
      | inr k ↦ rw k (contains-append before e after)
    ]

-- A true quotation always passes: an excerpt that is not empty is found on any page that holds it
-- word for word, and the reason says so.
fuzzy_contains_complete :
    (matching_blocks : Text → Text → List Block) (excerpt before after : Text)
    → excerpt ≢ []
    → fuzzy_contains matching_blocks excerpt (before ++ (excerpt ++ after)) ≡ (true, substring)
unfolding fuzzy_contains
fuzzy_contains_complete blocks [] before after h = absurd (h refl)
fuzzy_contains_complete blocks (x ∷ e) [] after h = rw (contains-append [] (x ∷ e) after) refl
fuzzy_contains_complete blocks (x ∷ e) (y ∷ before) after h =
    rw (contains-append (y ∷ before) (x ∷ e) after) refl
