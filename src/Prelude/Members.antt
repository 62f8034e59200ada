-- ===== src/Prelude/Members.antt =====
-- Membership in the lists that the helpers make.
use mathlib.Core.Path.{◌≡◌, refl, ap}
use mathlib.Core.Logic.{inl, inr}
use mathlib.Core.Bool.{Bool, true, false, not}
use mathlib.Core.List.{List, [], ◌∷◌, ◌++◌, Memᴰ, map}
use mathlib.Core.Option.{some}
use rfp_shred.Prelude.Tests.{Bool-cases}
use rfp_shred.Prelude.Lists.{All, All-map, keep, first}

module _ {ℓ} {A : Type ℓ} where
  pub All-Mem : (xs : List A) → All (λ x. Memᴰ x xs) xs
  All-Mem [] = tt
  All-Mem (x ∷ xs) = (Memᴰ.head refl, All-map (λ y m. Memᴰ.tail m) xs (All-Mem xs))

  pub Mem-append_left : (x : A) (xs ys : List A) → Memᴰ x xs → Memᴰ x (xs ++ ys)
  Mem-append_left x [] ys m = elim m [ ]
  Mem-append_left x (y ∷ xs) ys (Memᴰ.head e) = Memᴰ.head e
  Mem-append_left x (y ∷ xs) ys (Memᴰ.tail m) = Memᴰ.tail (Mem-append_left x xs ys m)

  pub Mem-last : (x : A) (xs : List A) → Memᴰ x (xs ++ x ∷ [])
  Mem-last x [] = Memᴰ.head refl
  Mem-last x (y ∷ xs) = Memᴰ.tail (Mem-last x xs)

  pub Mem-keep :
      (test : A → Bool) (x : A) (xs : List A) → test x ≡ true → Memᴰ x xs → Memᴰ x (keep test xs)
  Mem-keep test x [] h m = elim m [ ]
  Mem-keep test x (y ∷ xs) h (Memᴰ.head e) =
      let passes : test y ≡ true = rw⁻¹ e h in rw passes (Memᴰ.head e)
  Mem-keep test x (y ∷ xs) h (Memᴰ.tail m) = elim (Bool-cases (test y)) [
    | inl e ↦ rw e (Memᴰ.tail (Mem-keep test x xs h m))
    | inr e ↦ rw e (Mem-keep test x xs h m)
  ]

  pub Mem-map : (f : A → A) (x : A) (xs : List A) → Memᴰ x xs → Memᴰ (f x) (map f xs)
  Mem-map f x [] m = elim m [ ]
  Mem-map f x (y ∷ xs) (Memᴰ.head e) = Memᴰ.head (ap f e)
  Mem-map f x (y ∷ xs) (Memᴰ.tail m) = Memᴰ.tail (Mem-map f x xs m)

  pub first-map :
      (test : A → Bool) (f : A → A) (xs : List A) (x : A)
      → ((y : A) → test (f y) ≡ test y)
      → first test xs ≡ some x
      → first test (map f xs) ≡ some (f x)
  first-map test f [] x same h = cc
  first-map test f (y ∷ ys) x same h = elim (Bool-cases (test y)) [
    | inl e ↦
        let found : some y ≡ some x = rw e at h in
        let here : y ≡ x = cc in rw (same y, e) (ap (λ z. some (f z)) here)
    | inr e ↦
        let later : first test ys ≡ some x = rw e at h in
        rw (same y, e) (first-map test f ys x same later)
  ]

  pub first-Mem : (test : A → Bool) (xs : List A) (x : A) → first test xs ≡ some x → Memᴰ x xs
  first-Mem test [] x h = cc
  first-Mem test (y ∷ ys) x h = elim (Bool-cases (test y)) [
    | inl e ↦ let found : some y ≡ some x = rw e at h in Memᴰ.head cc
    | inr e ↦ Memᴰ.tail (first-Mem test ys x (rw e at h))
  ]

  pub Mem-of_keep : (test : A → Bool) (x : A) (xs : List A) → Memᴰ x (keep test xs) → Memᴰ x xs
  Mem-of_keep test x [] m = elim m [ ]
  Mem-of_keep test x (y ∷ xs) m = elim (Bool-cases (test y)) [
    | inr e ↦ Memᴰ.tail (Mem-of_keep test x xs (rw e at m))
    | inl e ↦ cases (λ n. Mem-of_keep test x xs n) (rw e at m)
  ]
    where
      cases : (Memᴰ x (keep test xs) → Memᴰ x xs) → Memᴰ x (y ∷ keep test xs) → Memᴰ x (y ∷ xs)
      cases later (Memᴰ.head e) = Memᴰ.head e
      cases later (Memᴰ.tail n) = Memᴰ.tail (later n)

  pub keep-fails :
      (test : A → Bool) (xs : List A) → All (λ x. test x ≡ false) (keep (λ x. not (test x)) xs)
  keep-fails test [] = tt
  keep-fails test (x ∷ xs) = elim (Bool-cases (test x)) [
    | inl e ↦ rw e (keep-fails test xs)
    | inr e ↦ rw e (e, keep-fails test xs)
  ]
