-- ===== src/Web/RowPatch/Guards.antt =====
-- app/web/routes_api.py: whom `api_patch_row` lets write.
use rfp_shred.Prelude.{
  ==_iff, Bool, Bool-cases, Option, false, inl, inr, none, refl, some, true, ℕ, ◌==◌, ◌≡◌, ◌⊎◌,
}
use rfp_shred.Models.{Session, Rfp, Requirement}
use rfp_shred.RateLimit.{Buckets}
use rfp_shred.Billing.Gate.{is_entitled}
use rfp_shred.Web.RowPatch.{
  Payload, Reply, find_row, get_rfp, for_rfp, for_row, for_id, if_allowed, patch_row,
}

-- The caller owns the solicitation of the row, and its matrix is open to the caller.
pub record MayEdit (now account_id : ℕ) (s : Session) (row : Requirement) : Type 0 where
  pub rfp : Rfp
  pub found : get_rfp s row.rfp_id ≡ some rfp
  pub owned : rfp.account_id ≡ account_id
  pub open_ : is_entitled now s account_id rfp ≡ true

-- A patch of the row with this id that the caller may make.
pub record IsAllowed (now account_id : ℕ) (row_id : Option ℕ) (s : Session) : Type 0 where
  pub id : ℕ
  pub given : row_id ≡ some id
  pub row : Requirement
  pub exists_ : find_row s id ≡ some row
  pub may : MayEdit now account_id s row

module _ (now account_id : ℕ) (payload : Payload) (s : Session) where
  abbrev Guarded : Option ℕ → Reply × Session → Type 0
  Guarded row_id r = (r.1 ≡ s) ⊎ IsAllowed now account_id row_id s

  for_rfp-Guarded :
      (o : Option Rfp) (row : Requirement)
      → get_rfp s row.rfp_id ≡ o
      → ((for_rfp now account_id payload o row s).1 ≡ s) ⊎ MayEdit now account_id s row
  for_rfp-Guarded none row e = inl refl
  for_rfp-Guarded (some rfp) row e = elim (Bool-cases (rfp.account_id == account_id)) [
    | inr k ↦ rw k (inl refl)
    | inl k ↦ rw k (elim (Bool-cases (is_entitled now s account_id rfp)) [
      | inr l ↦ rw l (inl refl)
      | inl l ↦ inr (record {
        rfp = rfp;
        found = e;
        owned = (==_iff rfp.account_id account_id).0 k;
        open_ = l;
      })
    ])
  ]

  for_row-Guarded :
      (i : ℕ) (o : Option Requirement)
      → find_row s i ≡ o
      → Guarded (some i) (for_row now account_id payload o s)
  for_row-Guarded i none e = inl refl
  for_row-Guarded i (some row) e = elim (for_rfp-Guarded (get_rfp s row.rfp_id) row refl) [
    | inl same ↦ inl same
    | inr may ↦ inr (record { id = i; given = refl; row = row; exists_ = e; may = may })
  ]

  for_id-Guarded : (row_id : Option ℕ) → Guarded row_id (for_id now account_id payload row_id s)
  for_id-Guarded none = inl refl
  for_id-Guarded (some i) = for_row-Guarded i (find_row s i) refl

  if_allowed-Guarded :
      (v : Bool × ℕ) (row_id : Option ℕ)
      → Guarded row_id (if_allowed now account_id payload v row_id s)
  if_allowed-Guarded (false, wait) row_id = inl refl
  if_allowed-Guarded (true, wait) row_id = for_id-Guarded row_id

  -- Nobody else writes: a request either leaves every table as it was, whatever it is answered, or
  -- names a row that exists, of a solicitation that the caller owns, whose matrix is open to
  -- the caller at that moment.
  pub patch_row-IsAllowed :
      (tick : ℕ) (row_id : Option ℕ) (buckets : Buckets)
      → ((patch_row now account_id payload tick row_id buckets s).0.1 ≡ s)
        ⊎ IsAllowed now account_id row_id s
  unfolding patch_row
  patch_row-IsAllowed tick row_id buckets = if_allowed-Guarded _ row_id
