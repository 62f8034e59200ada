-- ===== src/Tests/Owners.antt =====
-- app/web/routes_pages.py and routes_account.py at concrete inputs: the restoring of a line, and the
-- deletion of an account.
use rfp_shred.Prelude.{
  All, [], codes, false, length, map, refl, sort_by, true, ◌+◌, ◌==◌, ◌∷◌, ◌≡◌, ◌⊎◌,
}
use rfp_shred.Models.{Session, AuditDrop, Rfp}
use rfp_shred.Web.Matrices.{get_rfp}
use rfp_shred.Web.Account.{delete_account, delete_rfps}
use rfp_shred.Web.Account.Links.{delete_account-IsLinked, IsLinked}
use rfp_shred.Web.Restore.{restore_audit_drop, load_pages, next_seq}
use rfp_shred.Web.Restore.Cited.{restore_audit_drop-IsRestored, IsRestored}
use rfp_shred.Pipeline.Items.{page_text}
use rfp_shred.Pipeline.Audit.{verification_failure, check}
use rfp_shred.Pipeline.TextUtils.Normalize.{normalize_text}
use rfp_shred.Pipeline.TextUtils.Containment.{contains}
use rfp_shred.Tests.Samples.{locked_rfp, row}
use rfp_shred.Tests.Runs.{outside, settings}
use rfp_shred.Tests.Callers.{caller, pages_world, done_plant}

abbrev dropped : AuditDrop
dropped = record {
  id = 1;
  rfp_id = 1;
  seq = 4;
  page = 1;
  excerpt = codes "the offeror shall";
  text = codes "the offeror shall";
  audit_failure_reason = [];
  re_included = false;
}

abbrev with_drop : Session
with_drop = record done_plant { audit_drops = dropped ∷ [] }

abbrev after_restore : Session
after_restore =
    (restore_audit_drop pages_world outside settings (λ n. n ∷ []) 40 ("incoming/1.pdf" ∷ []) caller
      "rfp-1" "drop-1" with_drop).1

-- The row is added, and the line is marked.
one_more :
    (length after_restore.requirements ≡ length with_drop.requirements + 1)
    × (map (λ (d : AuditDrop). d.re_included) after_restore.audit_drops ≡ true ∷ [])
unfolding restore_audit_drop get_rfp load_pages next_seq sort_by page_text verification_failure
    check normalize_text contains
one_more = (refl, refl)

restore_audit_drop-IsRestored_example :
    (after_restore.requirements ≡ with_drop.requirements)
    ⊎ IsRestored pages_world outside settings
        (λ n. n ∷ [])
        40
        ("incoming/1.pdf" ∷ [])
        caller
        "rfp-1"
        "drop-1"
        with_drop
        after_restore
restore_audit_drop-IsRestored_example =
    restore_audit_drop-IsRestored pages_world outside settings (λ n. n ∷ []) 40
      ("incoming/1.pdf" ∷ []) caller "rfp-1" "drop-1" with_drop

abbrev house : Session
house = record done_plant {
  accounts = caller ∷ record caller { id = 9 } ∷ [];
  rfps = locked_rfp ∷ record locked_rfp { id = 5; account_id = 9 } ∷ [];
  requirements = row 1 ∷ record (row 2) { rfp_id = 5 } ∷ [];
}

house-IsLinked : IsLinked house
house-IsLinked = record {
  runs_linked = (refl, tt);
  rows_linked = (refl, (refl, tt));
  rfps_linked = (refl, (refl, tt));
}

-- The account's own solicitation goes with its row, the other's stays.
one_left :
    ((delete_account caller house).1.rfps ≡ record locked_rfp { id = 5; account_id = 9 } ∷ [])
    × ((delete_account caller house).1.requirements ≡ record (row 2) { rfp_id = 5 } ∷ [])
unfolding delete_account delete_rfps
one_left = (refl, refl)

delete_account-IsLinked_example :
    IsLinked (delete_account caller house).1
    × All (λ (r : Rfp). (r.account_id == caller.id) ≡ false) (delete_account caller house).1.rfps
delete_account-IsLinked_example = delete_account-IsLinked caller house house-IsLinked
