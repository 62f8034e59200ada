-- ===== src/Pipeline/Transform/Drops.antt =====
-- app/pipeline/transform.py: what becomes of the items that do not pass.
use rfp_shred.Prelude.{
  ==_refl, Bool, Bool-cases, List, Text, [], ap, append-nil, inl, inr, keep, map, not, refl,
  sort_by, ℕ, ◌++◌, ◌+◌, ◌==◌, ◌∙◌, ◌∷◌, ◌≡◌,
}
use rfp_shred.Models.{Session, AuditDrop}
use rfp_shred.Pipeline.Items.{MineResult}
use rfp_shred.Pipeline.TextUtils.Normalize.{Unicode}
use rfp_shred.Pipeline.Audit.{Reason, AuditFailure, AuditOutcome}
use rfp_shred.Pipeline.Filter.{FilterOutcome}
use rfp_shred.Pipeline.Transform.{in_order, drops_of, persist_mine_result}

keep-append {ℓ} :
    {A : Type ℓ} (test : A → Bool) (xs ys : List A)
    → keep test (xs ++ ys) ≡ keep test xs ++ keep test ys
keep-append test [] ys = refl
keep-append test (x ∷ xs) ys = elim (Bool-cases (test x)) [
  | inl e ↦ rw e (ap (λ zs. x ∷ zs) (keep-append test xs ys))
  | inr e ↦ rw e (keep-append test xs ys)
]

keep-none {ℓ} :
    {A : Type ℓ} (test : A → Bool) (xs : List A) → keep test (keep (λ x. not (test x)) xs) ≡ []
keep-none test [] = refl
keep-none test (x ∷ xs) = elim (Bool-cases (test x)) [
  | inl e ↦ rw e (keep-none test xs)
  | inr e ↦ rw e (rw e (keep-none test xs))
]

keep-keep {ℓ} :
    {A : Type ℓ} (test : A → Bool) (xs : List A) → keep test (keep test xs) ≡ keep test xs
keep-keep test [] = refl
keep-keep test (x ∷ xs) = elim (Bool-cases (test x)) [
  | inl e ↦ rw e (rw e (ap (λ zs. x ∷ zs) (keep-keep test xs)))
  | inr e ↦ rw e (keep-keep test xs)
]

-- The drops of a solicitation, and those of the others.
abbrev pub is_of : ℕ → AuditDrop → Bool
is_of i d = d.rfp_id == i

abbrev pub is_other : ℕ → AuditDrop → Bool
is_other i d = not (d.rfp_id == i)

-- A drop, and a failure, by its text and the text of its reason.
abbrev pub drop_line : AuditDrop → Text × Text
drop_line d = (d.text, d.audit_failure_reason)

abbrev pub failure_line : (Reason → Text) → AuditFailure → Text × Text
failure_line describe f = (f.item.text, describe f.reason)

module _ (new_row : ℕ → ℕ) (describe : Reason → Text) (i : ℕ) where
  mine-drops_of :
      (seq : ℕ) (fs : List AuditFailure)
      → keep (is_of i) (drops_of new_row describe i seq fs) ≡ drops_of new_row describe i seq fs
  unfolding drops_of
  mine-drops_of seq [] = refl
  mine-drops_of seq (f ∷ fs) = rw ==_refl (cc (mine-drops_of (seq + 1) fs))

  others-drops_of :
      (seq : ℕ) (fs : List AuditFailure)
      → keep (is_other i) (drops_of new_row describe i seq fs) ≡ []
  unfolding drops_of
  others-drops_of seq [] = refl
  others-drops_of seq (f ∷ fs) = rw ==_refl (others-drops_of (seq + 1) fs)

  text-drops_of :
      (seq : ℕ) (fs : List AuditFailure)
      → map drop_line (drops_of new_row describe i seq fs) ≡ map (failure_line describe) fs
  unfolding drops_of
  text-drops_of seq [] = refl
  text-drops_of seq (f ∷ fs) = cc (text-drops_of (seq + 1) fs)

-- Every citation failure is on record: after `persist_mine_result` the drops of the solicitation are,
-- in document order, the texts of the failures with the text of their reason, one for each, whatever
-- was there before, and the drops of all other solicitations are as they were.
persist_mine_result-audit_drops :
    (u : Unicode) (new_output new_row : ℕ → ℕ) (describe : Reason → Text) (rfp_id run_id : ℕ)
    (mine : MineResult) (audit : AuditOutcome) (filtered : FilterOutcome) (s : Session)
    → let after =
        (persist_mine_result u new_output new_row describe rfp_id run_id mine audit filtered s).1 in
      (map drop_line (keep (is_of rfp_id) after.audit_drops)
        ≡ map
            (failure_line describe)
            (sort_by (λ (f g : AuditFailure). in_order f.item g.item) audit.failures))
      × (keep (is_other rfp_id) after.audit_drops ≡ keep (is_other rfp_id) s.audit_drops)
unfolding persist_mine_result
persist_mine_result-audit_drops u new_output new_row describe rfp_id run_id mine audit filtered s =
    let failures = sort_by (λ (f g : AuditFailure). in_order f.item g.item) audit.failures in
    let drops = drops_of new_row describe rfp_id 1 failures in
    let kept = keep (is_other rfp_id) s.audit_drops in
    let own : keep (is_of rfp_id) (kept ++ drops) ≡ drops =
      keep-append (is_of rfp_id) kept drops
      ∙ ap (λ ds. ds ++ keep (is_of rfp_id) drops) (keep-none (is_of rfp_id) s.audit_drops)
      ∙ mine-drops_of new_row describe rfp_id 1 failures in
    let others : keep (is_other rfp_id) (kept ++ drops) ≡ kept =
      keep-append (is_other rfp_id) kept drops
      ∙ ap (λ ds. keep (is_other rfp_id) kept ++ ds)
          (others-drops_of new_row describe rfp_id 1 failures)
      ∙ append-nil (keep (is_other rfp_id) kept)
      ∙ keep-keep (is_other rfp_id) s.audit_drops in
    (ap (map drop_line) own ∙ text-drops_of new_row describe rfp_id 1 failures, others)
