-- ===== src/Pipeline/Transform/Survivors.antt =====
-- app/pipeline/transform.py: the removal of repeated items.
use rfp_shred.Prelude.{
  ==_refl, All, All-map, All-of_sort_by, Bool, Bool-cases, IsSorted, List, [], any, arith, false,
  inl, inr, map, not, refl, sort_by, subst, sym, true, ◌||◌, ◌∷◌, ◌≡◌,
}
use rfp_shred.Pipeline.Items.{MinedItem}
use rfp_shred.Pipeline.TextUtils.Normalize.{Unicode}
use rfp_shred.Pipeline.Transform.{Key, key_eq, in_order, item_key, dedupe, surviving}
use rfp_shred.Pipeline.TextUtils.Distance.{text_eq_refl}

key_eq_refl : (k : Key) → key_eq k k ≡ true
unfolding key_eq
key_eq_refl k = rw (text_eq_refl k.clause_id) (rw ==_refl (rw (text_eq_refl k.body) refl))

module _ (u : Unicode) where
  -- Two items that are rows of their own.
  abbrev pub differ : MinedItem → MinedItem → Bool
  differ i j = not (key_eq (item_key u j) (item_key u i))

  -- An item of the list has the key.
  abbrev pub stands_for : List MinedItem → MinedItem → Bool
  stands_for items i = any (key_eq (item_key u i)) (map (item_key u) items)

  abbrev IsNew : List Key → MinedItem → Type 0
  IsNew seen i = any (key_eq (item_key u i)) seen ≡ false

  dedupe-IsNew : (seen : List Key) (items : List MinedItem) → All (IsNew seen) (dedupe u seen items)
  unfolding dedupe
  dedupe-IsNew seen [] = tt
  dedupe-IsNew seen (i ∷ items) = elim (Bool-cases (any (key_eq (item_key u i)) seen)) [
    | inl e ↦ rw e (dedupe-IsNew seen items)
    | inr e ↦
        rw e (e, All-map (λ j h. not_in_rest j h) _ (dedupe-IsNew (item_key u i ∷ seen) items))
  ]
    where
      not_in_rest : (j : MinedItem) → IsNew (item_key u i ∷ seen) j → IsNew seen j
      not_in_rest j h = ground arith

  dedupe-distinct :
      (seen : List Key) (items : List MinedItem) → IsSorted differ (dedupe u seen items)
  unfolding dedupe
  dedupe-distinct seen [] = tt
  dedupe-distinct seen (i ∷ items) = elim (Bool-cases (any (key_eq (item_key u i)) seen)) [
    | inl e ↦ rw e (dedupe-distinct seen items)
    | inr e ↦ rw e (
      All-map (λ j h. not_first j h) _ (dedupe-IsNew (item_key u i ∷ seen) items),
      dedupe-distinct (item_key u i ∷ seen) items,
    )
  ]
    where
      not_first : (j : MinedItem) → IsNew (item_key u i ∷ seen) j → differ i j ≡ true
      not_first j h = ground arith

  abbrev Stays : List Key → List MinedItem → MinedItem → Type 0
  Stays seen out i = (any (key_eq (item_key u i)) seen || stands_for out i) ≡ true

  dedupe-skip :
      (seen : List Key) (i : MinedItem) (items : List MinedItem)
      → any (key_eq (item_key u i)) seen ≡ true
      → dedupe u seen (i ∷ items) ≡ dedupe u seen items
  unfolding dedupe
  dedupe-skip seen i items e = rw e refl

  dedupe-keep :
      (seen : List Key) (i : MinedItem) (items : List MinedItem)
      → any (key_eq (item_key u i)) seen ≡ false
      → dedupe u seen (i ∷ items) ≡ i ∷ dedupe u (item_key u i ∷ seen) items
  unfolding dedupe
  dedupe-keep seen i items e = rw e refl

  dedupe_complete :
      (seen : List Key) (items : List MinedItem) → All (Stays seen (dedupe u seen items)) items
  dedupe_complete seen [] = tt
  dedupe_complete seen (i ∷ items) = elim (Bool-cases (any (key_eq (item_key u i)) seen)) [
    | inl e ↦
        subst (λ out. All (Stays seen out) (i ∷ items)) (sym (dedupe-skip seen i items e))
          (rw e refl, dedupe_complete seen items)
    | inr e ↦
        subst (λ out. All (Stays seen out) (i ∷ items)) (sym (dedupe-keep seen i items e))
          (
            rw e (rw (key_eq_refl (item_key u i)) refl),
            All-map (λ j h. later j (dedupe u (item_key u i ∷ seen) items) h) items
                (dedupe_complete (item_key u i ∷ seen) items),
          )
  ]
    where
      later :
          (j : MinedItem) (out : List MinedItem)
          → Stays (item_key u i ∷ seen) out j
          → Stays seen (i ∷ out) j
      later j out h = ground arith

  -- Repeated items become one row, and none disappears: the items that survive have keys that
  -- differ from each other, and every item that passed the audit has a survivor with its key, the
  -- normalized clause id, the page and the normalized text.
  surviving-distinct :
      (passed : List MinedItem)
      → IsSorted differ (surviving u passed)
        × All (λ i. stands_for (surviving u passed) i ≡ true) passed
  unfolding surviving
  surviving-distinct passed = (
    dedupe-distinct [] (sort_by in_order passed),
    All-of_sort_by in_order _ passed (dedupe_complete [] (sort_by in_order passed)),
  )
