-- ===== src/Maintenance/Retention.antt =====
-- app/core/maintenance.py: which sources the clean-up keeps.
use rfp_shred.Prelude.{
  Bool, List, Option, String, [], ap, arith, keep, keep-cons, none, refl, some, sym, ℕ, ◌++◌, ◌∙◌,
  ◌∷◌, ◌≡◌,
}
use rfp_shred.Models.{Session, Rfp, ExtractionRun}
use rfp_shred.Maintenance.{
  Visit, destroy, visit_settled, visit_failed, pass, enforce_source_retention,
}

-- A row whose source is to be kept.
abbrev pub is_retained : Rfp → Bool
is_retained r = r.retain_source

module _ (unlinks : String → Bool) where
  -- A visit leaves a retained row alone, and makes no row retained.
  abbrev Spares : (Rfp → Visit unlinks) → Type 0
  Spares visit = (r : Rfp) → keep is_retained ((visit r).row ∷ []) ≡ keep is_retained (r ∷ [])

  retained-destroy :
      (o : Option String) (r : Rfp) → (destroy unlinks o r).1.retain_source ≡ r.retain_source
  retained-destroy none r = refl
  retained-destroy (some p) r = ground arith

  retained-pass :
      (visit : Rfp → Visit unlinks) (rfps : List Rfp)
      → Spares visit
      → keep is_retained (pass unlinks visit rfps).0 ≡ keep is_retained rfps
  unfolding pass
  retained-pass visit [] spares = refl
  retained-pass visit (r ∷ rfps) spares =
      sym (keep-cons is_retained (visit r).row (pass unlinks visit rfps).0)
      ∙ ap (λ rs. rs ++ keep is_retained (pass unlinks visit rfps).0) (spares r)
      ∙ ap (λ rs. keep is_retained (r ∷ []) ++ rs) (retained-pass visit rfps spares)
      ∙ keep-cons is_retained r rfps

  visit_settled-Spares :
      (now : ℕ) (runs : List ExtractionRun) → Spares (visit_settled unlinks now runs)
  visit_settled-Spares now runs r = ground (arith, retained-destroy r.stored_path r)

  visit_failed-Spares : (now : ℕ) → Spares (visit_failed unlinks now)
  visit_failed-Spares now r = ground (arith, retained-destroy r.stored_path r)

  -- A source that is to be retained is never destroyed and never expires: whatever its state and age,
  -- the rows with `retain_source` are the same before and after the clean-up, in the same order.
  pub enforce_source_retention-retained :
      (now : ℕ) (s : Session)
      → keep is_retained (enforce_source_retention unlinks now s).1.rfps ≡ keep is_retained s.rfps
  unfolding enforce_source_retention
  enforce_source_retention-retained now s =
      retained-pass (visit_failed unlinks now)
        (pass unlinks (visit_settled unlinks now s.runs) s.rfps).0 (visit_failed-Spares now)
      ∙ retained-pass (visit_settled unlinks now s.runs) s.rfps (visit_settled-Spares now s.runs)
