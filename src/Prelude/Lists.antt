-- ===== src/Prelude/Lists.antt =====
-- Lists measured and indexed by native numbers, under the library's names.
use Prim.Native.Nat.{ℕ, zero, suc, ◌+◌, ◌-◌, ◌≤◌, min}
use Prim.Native.Char.{code}
use Prim.Native.String.{String}
use mathlib.Core.Path.{◌≡◌, refl, ap, ◌∙◌}
use mathlib.Core.Logic.{inl, inr}
use mathlib.Core.Bool.{Bool, true, false, false≢true}
use mathlib.Core.List.{List, [], ◌∷◌, ◌++◌, map, append_assoc}
use mathlib.Core.Option.{Option, none, some}
use native.Mathlib.Omega.{arith}
use rfp_shred.Prelude.Tests.{if◌then◌else◌, Bool-cases}

module _ {ℓ} {A : Type ℓ} where
  abbrev pub length : List A → ℕ
  length [] = 0
  length (x ∷ xs) = suc (length xs)

  abbrev pub take : ℕ → List A → List A
  take zero xs = []
  take (suc n) [] = []
  take (suc n) (x ∷ xs) = x ∷ take n xs

  abbrev pub drop : ℕ → List A → List A
  drop zero xs = xs
  drop (suc n) [] = []
  drop (suc n) (x ∷ xs) = drop n xs

  -- `all(test(x) for x in xs)` and `any(test(x) for x in xs)`
  abbrev pub all : (A → Bool) → List A → Bool
  all test [] = true
  all test (x ∷ xs) = if test x then all test xs else false

  abbrev pub any : (A → Bool) → List A → Bool
  any test [] = false
  any test (x ∷ xs) = if test x then true else any test xs

  -- The items that pass a Boolean test, in their order, as a comprehension keeps them.
  abbrev pub keep : (A → Bool) → List A → List A
  keep test [] = []
  keep test (x ∷ xs) = let rest = keep test xs in if test x then x ∷ rest else rest

  -- The first item that passes the test.
  abbrev pub first : (A → Bool) → List A → Option A
  first test [] = none
  first test (x ∷ xs) = let rest = first test xs in if test x then some x else rest

  abbrev pub All {κ} : (A → Type κ) → List A → Type κ
  All P [] = Unit
  All P (x ∷ xs) = P x × All P xs

module _ {ℓ} {A : Type ℓ} where
  pub length-append : (xs ys : List A) → length (xs ++ ys) ≡ length xs + length ys
  length-append [] ys = omega arith
  length-append (x ∷ xs) ys = omega (arith, length-append xs ys)

  pub take-append-drop : (n : ℕ) (xs : List A) → take n xs ++ drop n xs ≡ xs
  take-append-drop zero xs = refl
  take-append-drop (suc n) [] = refl
  take-append-drop (suc n) (x ∷ xs) = rw (take-append-drop n xs)

  pub length-take : (n : ℕ) (xs : List A) → length (take n xs) ≡ min n (length xs)
  length-take zero xs = omega arith
  length-take (suc n) [] = omega arith
  length-take (suc n) (x ∷ xs) = omega (arith, length-take n xs)

  pub length-drop : (n : ℕ) (xs : List A) → length (drop n xs) ≡ length xs - n
  length-drop zero xs = omega arith
  length-drop (suc n) [] = omega arith
  length-drop (suc n) (x ∷ xs) = omega (arith, length-drop n xs)

  pub length-map {κ} : {B : Type κ} (xs : List A) (f : A → B) → length (map f xs) ≡ length xs
  length-map [] f = refl
  length-map (x ∷ xs) f = ap suc (length-map xs f)

  pub length-keep-le : (test : A → Bool) (xs : List A) → length (keep test xs) ≤ length xs
  length-keep-le test [] = omega arith
  length-keep-le test (x ∷ xs) = ground (arith, length-keep-le test xs)

  pub All-append {κ} : (P : A → Type κ) (xs ys : List A) → All P xs → All P ys → All P (xs ++ ys)
  All-append P [] ys hx hy = hy
  All-append P (x ∷ xs) ys hx hy = (hx.0, All-append P xs ys hx.1 hy)

  pub All-map {κ μ} :
      {P : A → Type κ} {Q : A → Type μ}
      → ((x : A) → P x → Q x)
      → (xs : List A) → All P xs
      → All Q xs
  All-map f [] h = tt
  All-map f (x ∷ xs) h = (f x h.0, All-map f xs h.1)

  pub All-keep {κ} :
      (P : A → Type κ) (test : A → Bool) (xs : List A) → All P xs → All P (keep test xs)
  All-keep P test [] h = tt
  All-keep P test (x ∷ xs) h = elim (Bool-cases (test x)) [
    | inl e ↦ rw e (h.0, All-keep P test xs h.1)
    | inr e ↦ rw e (All-keep P test xs h.1)
  ]

-- A text that the program looks into: its code points.
abbrev pub Text : Type 0
Text = List ℕ

-- The code points of a literal.
abbrev pub codes : String → Text
codes String.[] = []
codes (String.◌∷◌ c s) = code c ∷ codes s

module _ {ℓ κ} {A : Type ℓ} {B : Type κ} where
  pub All-map_list {μ ν} :
      (P : A → Type μ) (Q : B → Type ν) (f : A → B)
      → ((x : A) → P x → Q (f x))
      → (xs : List A) → All P xs
      → All Q (map f xs)
  All-map_list P Q f h [] a = tt
  All-map_list P Q f h (x ∷ xs) a = (h x a.0, All-map_list P Q f h xs a.1)

module _ {ℓ} {A : Type ℓ} where
  pub any-append_left :
      (test : A → Bool) (xs ys : List A) → any test xs ≡ true → any test (xs ++ ys) ≡ true
  any-append_left test [] ys h = absurd (false≢true h)
  any-append_left test (x ∷ xs) ys h = elim (Bool-cases (test x)) [
    | inl e ↦ rw e refl
    | inr e ↦ rw e (any-append_left test xs ys (rw e at h))
  ]

  pub any-append_last :
      (test : A → Bool) (xs : List A) (x : A) → test x ≡ true → any test (xs ++ x ∷ []) ≡ true
  any-append_last test [] x h = rw h
  any-append_last test (y ∷ ys) x h = elim (Bool-cases (test y)) [
    | inl e ↦ rw e refl
    | inr e ↦ rw e (any-append_last test ys x h)
  ]

  -- What `first` finds passes the test and has what all items have.
  pub first-passes :
      (test : A → Bool) (xs : List A) (x : A) → first test xs ≡ some x → test x ≡ true
  first-passes test [] x h = cc
  first-passes test (y ∷ ys) x h = elim (Bool-cases (test y)) [
    | inl e ↦ let found : some y ≡ some x = rw e at h in let same : y ≡ x = cc in rw (← same) e
    | inr e ↦ first-passes test ys x (rw e at h)
  ]

  -- `f` at the first item that passes the test.
  abbrev pub update_first : (A → Bool) → (A → A) → List A → List A
  update_first test f [] = []
  update_first test f (x ∷ xs) =
      let rest = x ∷ update_first test f xs in if test x then f x ∷ xs else rest

  pub first-update_first :
      (test : A → Bool) (f : A → A) (xs : List A) (x : A)
      → first test xs ≡ some x
      → test (f x) ≡ true
      → first test (update_first test f xs) ≡ some (f x)
  first-update_first test f [] x h k = cc
  first-update_first test f (y ∷ ys) x h k = elim (Bool-cases (test y)) [
    | inl e ↦
        let found : some y ≡ some x = rw e at h in
        let same : y ≡ x = cc in rw e (rw same (rw k refl))
    | inr e ↦ rw e (rw e (first-update_first test f ys x (rw e at h) k))
  ]

  pub All-update_first {κ} :
      (P : A → Type κ) (test : A → Bool) (f : A → A) (xs : List A) (x : A)
      → first test xs ≡ some x
      → P (f x)
      → All P xs
      → All P (update_first test f xs)
  All-update_first P test f [] x h p a = tt
  All-update_first P test f (y ∷ ys) x h p a = elim (Bool-cases (test y)) [
    | inl e ↦
        let found : some y ≡ some x = rw e at h in let same : y ≡ x = cc in rw e (rw same p, a.1)
    | inr e ↦ rw e (a.0, All-update_first P test f ys x (rw e at h) p a.1)
  ]

  pub first-append_last :
      (test : A → Bool) (xs : List A) (x : A)
      → first test xs ≡ none
      → test x ≡ true
      → first test (xs ++ x ∷ []) ≡ some x
  first-append_last test [] x h k = rw k
  first-append_last test (y ∷ ys) x h k = elim (Bool-cases (test y)) [
    | inl e ↦ let found : some y ≡ none = rw e at h in cc
    | inr e ↦ rw e (first-append_last test ys x (rw e at h) k)
  ]

  pub All-first {κ} :
      (P : A → Type κ) (test : A → Bool) (xs : List A) (x : A)
      → first test xs ≡ some x
      → All P xs
      → P x
  All-first P test [] x h a = cc
  All-first P test (y ∷ ys) x h a = elim (Bool-cases (test y)) [
    | inl e ↦ let found : some y ≡ some x = rw e at h in let same : y ≡ x = cc in rw same at a.0
    | inr e ↦ All-first P test ys x (rw e at h) a.1
  ]

-- `reverse xs ++ ys`
abbrev pub reverse_onto {ℓ} : {A : Type ℓ} → List A → List A → List A
reverse_onto [] ys = ys
reverse_onto (x ∷ xs) ys = reverse_onto xs (x ∷ ys)

pub keep-cons {ℓ} :
    {A : Type ℓ} (test : A → Bool) (x : A) (xs : List A)
    → keep test (x ∷ []) ++ keep test xs ≡ keep test (x ∷ xs)
keep-cons test x xs = elim (Bool-cases (test x)) [ inl e ↦ rw e refl | inr e ↦ rw e refl ]

-- A loop that appends what it keeps keeps a filtered list: `now` is the accumulator after `xs`,
-- `next` the one after the first round, for `x`, and `old` the one before.
pub keep-onto {ℓ} :
    {A : Type ℓ} (test : A → Bool) (x : A) (xs next old now : List A)
    → now ≡ next ++ keep test xs
    → next ≡ old ++ keep test (x ∷ [])
    → now ≡ old ++ keep test (x ∷ xs)
keep-onto test x xs next old now h k =
    h
    ∙ ap (λ r. r ++ keep test xs) k
    ∙ append_assoc old (keep test (x ∷ [])) (keep test xs)
    ∙ ap (λ r. old ++ r) (keep-cons test x xs)

pub keep-append {ℓ} :
    {A : Type ℓ} (test : A → Bool) (xs ys : List A)
    → keep test (xs ++ ys) ≡ keep test xs ++ keep test ys
keep-append test [] ys = refl
keep-append test (x ∷ xs) ys = elim (Bool-cases (test x)) [
  | inl e ↦ rw (e, keep-append test xs ys) refl
  | inr e ↦ rw (e, keep-append test xs ys) refl
]

pub All-keep_none {ℓ} :
    {A : Type ℓ} (test : A → Bool) (xs : List A) → All (λ x. test x ≡ false) xs → keep test xs ≡ []
All-keep_none test [] h = refl
All-keep_none test (x ∷ xs) h = rw (h.0, All-keep_none test xs h.1) refl
