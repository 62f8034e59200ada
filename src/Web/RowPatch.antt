-- ===== src/Web/RowPatch.antt =====
-- app/web/routes_api.py: `api_patch_row`, for a caller with an account. The parsed id and payload, the
-- two clocks and the prefixes that `[:50]` cuts are those of the request; the rendered row is left out.
pub mod Guards
use rfp_shred.Prelude.{
  Bool, List, Option, Text, [], false, first, if◌then◌else◌, is_some, map, none, not, some, take,
  true, ℕ, ◌&&◌, ◌++◌, ◌+◌, ◌-◌, ◌/◌, ◌==◌, ◌∷◌,
}
use rfp_shred.Models
use rfp_shred.Models.{Session, Rfp, Requirement, Correction, CorrectionType}
use rfp_shred.RateLimit.{Buckets, hit}
use rfp_shred.Billing.Gate.{is_entitled}
use rfp_shred.Pipeline.TextUtils.{text_eq}

-- `payload`: a key that is absent, or whose value is null where that is skipped, is `none`.
pub record Payload : Type 0 where
  pub verified : Option Bool
  pub response : Option Text
  pub tags : Option (List Text)

pub data Reply : Type 0 where
  too_many_requests : ℕ → Reply
  -- `deps.not_found()`, the same at each step
  not_found : Reply
  patched : Requirement → Reply

-- `LIMITS["row_patch"]`
abbrev pub patch_limit : ℕ
patch_limit = 100

abbrev pub patch_window_s : ℕ
patch_window_s = 60

unfoldable pub tags_eq : List Text → List Text → Bool
unfolding text_eq
tags_eq [] [] = true
tags_eq [] (t ∷ ts) = false
tags_eq (s ∷ ss) [] = false
tags_eq (s ∷ ss) (t ∷ ts) = text_eq s t && tags_eq ss ts

-- A row with the corrections that its changes have added.
abbrev pub Edited : Type 0
Edited = Requirement × List Correction

module _ (now account_id : ℕ) (rfp : Rfp) where
  abbrev pub correction : CorrectionType → Requirement → Correction
  correction t row = record {
    account_id = some account_id;
    rfp_id = rfp.id;
    requirement_id = some row.id;
    correction_type = t;
  }

  abbrev pub edit_verified : Option Bool → Edited → Edited
  edit_verified none e = e
  edit_verified (some true) (row, cs) =
      if is_some row.verified_at then (row, cs) else (record row { verified_at = some now }, cs)
  edit_verified (some false) (row, cs) =
      if is_some row.verified_at
      then (record row { verified_at = none }, cs ++ correction CorrectionType.uncheck row ∷ [])
      else (row, cs)

  abbrev pub edit_response : Option Text → Edited → Edited
  edit_response none e = e
  edit_response (some text) (row, cs) =
      if text_eq text row.response
      then (row, cs)
      else (record row { response = text }, cs ++ correction CorrectionType.response_edit row ∷ [])

  abbrev pub edit_tags : Option (List Text) → Edited → Edited
  edit_tags none e = e
  edit_tags (some tags) (row, cs) =
      if tags_eq (take 50 tags) row.tags
      then (row, cs)
      else (record row { tags = take 50 tags }, cs ++ correction CorrectionType.tag_edit row ∷ [])

  -- The three blocks, in their order.
  unfoldable pub edit : Payload → Requirement → Edited
  unfolding tags_eq
  edit payload row =
      edit_tags payload.tags
        (edit_response payload.response (edit_verified payload.verified (row, [])))

-- `db.get(Requirement, ...)`
abbrev pub find_row : Session → ℕ → Option Requirement
find_row s i = first (λ (r : Requirement). r.id == i) s.requirements

abbrev pub get_rfp : Session → ℕ → Option Rfp
get_rfp s i = first (λ (r : Rfp). r.id == i) s.rfps

abbrev pub store : Requirement → Edited → Session → Reply × Session
store row e s = (
  patched e.0,
  record s {
    requirements = map (λ (r : Requirement). if r.id == row.id then e.0 else r) s.requirements;
    corrections = s.corrections ++ e.1;
  },
)

module _ (now account_id : ℕ) (payload : Payload) where
  abbrev pub for_rfp : Option Rfp → Requirement → Session → Reply × Session
  for_rfp none row s = (not_found, s)
  for_rfp (some rfp) row s =
      if not (rfp.account_id == account_id)
      then (not_found, s)
      else if not (is_entitled now s account_id rfp)
      then (not_found, s)
      else store row (edit now account_id rfp payload row) s

  abbrev pub for_row : Option Requirement → Session → Reply × Session
  for_row none s = (not_found, s)
  for_row (some row) s = for_rfp (get_rfp s row.rfp_id) row s

  -- `_uuid_or_404` is `none` for a text that is no UUID.
  abbrev pub for_id : Option ℕ → Session → Reply × Session
  for_id none s = (not_found, s)
  for_id (some row_id) s = for_row (find_row s row_id) s

  abbrev pub if_allowed : Bool × ℕ → Option ℕ → Session → Reply × Session
  if_allowed (false, wait) row_id s = (too_many_requests wait, s)
  if_allowed (true, wait) row_id s = for_id row_id s

  -- `tick` is the limiter's clock, and the buckets are those of the name "row_patch".
  unfoldable pub patch_row : (tick : ℕ) → Option ℕ → Buckets → Session → (Reply × Session) × Buckets
  unfolding hit edit
  patch_row tick row_id buckets s =
      let (verdict, after) = hit tick account_id patch_limit patch_window_s buckets in
      (if_allowed verdict row_id s, after)
