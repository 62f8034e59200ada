-- ===== src/Web/Account.antt =====
-- app/web/routes_account.py and app/core/deferred_cleanup.py: the watchlist, and the deletion of a matrix
-- and of an account. The foreign keys of app/core/models.py say which rows go with a row, and which
-- only forget it. A source file goes after the commit.
pub mod Links
use rfp_shred.Prelude.{
  ==_iff, ==_refl, All, All-append, All-first, All-keep, All-keep_none, All-map, All-map_list,
  All-of_sort_by, All-sort_by, All-update_first, Bool, Bool-cases, IsSorted, List, Option,
  Option-cases, String, Text, [], all, any, any-append_last, any-append_left, ap, append-nil,
  append_assoc, arith, codes, drop, drop-append_le, drop-drop, drop-nil, eq_iff, false, false≢true,
  first, first-append_last, first-passes, first-update_first, fun_ext, if◌then◌else◌, inl, inr,
  insert_sorted, is_some, keep, keep-append, keep-cons, keep-onto, leb, leb→le, length,
  length-append, length-drop, length-keep-le, length-map, length-sort_by, length-take, le→leb, ltb,
  ltb→lt, lt→ltb, map, map-append, max, min, none, not, refl, reverse, reverse_onto, some, sort_by,
  sort_by-IsSorted, sort_by-perm, str_eq, str_eq_refl, subst, suc, sym, take, take-all,
  take-append-drop, true, update_first, zero, ℕ, ◌%◌, ◌&&◌, ◌*◌, ◌++◌, ◌+◌, ◌-◌, ◌/◌, ◌<◌, ◌==◌,
  ◌||◌, ◌↔◌, ◌∎, ◌∙◌, ◌∷◌, ◌≡◌, ◌≡⟨◌⟩◌, ◌≢◌, ◌≤◌, ◌⊎◌,
}
use rfp_shred.Models.{
  forget, refers, Session, Account, Rfp, ExtractionRun, Job, RawModelOutput, Requirement,
  FilteredLine, AuditDrop, Entitlement, RetentionLog, AuditEvent, Correction, InferenceLog,
  SessionRow, ResetToken,
}
use rfp_shred.Pipeline.TextUtils.Normalize.{strip}
use rfp_shred.Auth.Tokens.{split_on}
use rfp_shred.Auth.Sessions.{http_exception, responded, Reply}
use rfp_shred.Intake.Service.{Disk, unlink}
use rfp_shred.Web.Matrices.{get_rfp, WebWorld}

-- `naics_raw.replace(";", ",")`
abbrev pub commas : Text → Text
commas = map (λ c. if c == 59 then 44 else c)

abbrev pub is_filled : Text → Bool
is_filled t = ltb 0 (length t)

-- `save_watchlist`, of the form's texts. `text_of` gives the string of a list of characters.
unfoldable pub save_watchlist :
    (is_space : ℕ → Bool) (text_of : Text → String) (choices : List String)
    → Account
    → Text
    → List String
    → Session
    → Reply × Session
unfolding strip split_on
save_watchlist is_space text_of choices account naics_raw set_asides s = (
  responded 303,
  record s {
    accounts =
        map
          (λ (a : Account).
            if a.id == account.id
            then record a {
              watch_naics = take 100 (
                  map text_of
                    (keep is_filled (map (strip is_space) (split_on 44 (commas naics_raw)))));
              watch_set_asides = keep (λ c. any (str_eq c) choices) set_asides;
            }
            else a)
          s.accounts;
  },
)

abbrev pub run_gone : (ℕ → Bool) → List ExtractionRun → ℕ → Bool
run_gone gone runs i = any (λ (r : ExtractionRun). r.id == i && gone r.rfp_id) runs

-- The rows that go with solicitations, and those that forget them. `gone` says of which ids.
unfoldable pub delete_rfps : (ℕ → Bool) → Session → Session
delete_rfps gone s = record s {
  rfps = keep (λ (r : Rfp). not (gone r.id)) s.rfps;
  runs = keep (λ (r : ExtractionRun). not (gone r.rfp_id)) s.runs;
  jobs = keep (λ (j : Job). not (refers gone j.rfp_id)) s.jobs;
  raw_outputs =
      keep (λ (o : RawModelOutput). not (run_gone gone s.runs o.extraction_run_id)) s.raw_outputs;
  requirements = keep (λ (r : Requirement). not (gone r.rfp_id)) s.requirements;
  filtered_lines = keep (λ (l : FilteredLine). not (gone l.rfp_id)) s.filtered_lines;
  audit_drops = keep (λ (d : AuditDrop). not (gone d.rfp_id)) s.audit_drops;
  entitlements = keep (λ (e : Entitlement). not (refers gone e.rfp_id)) s.entitlements;
  corrections = keep (λ (c : Correction). not (gone c.rfp_id)) s.corrections;
  retention_log =
      map (λ (l : RetentionLog). record l { rfp_id = forget gone l.rfp_id }) s.retention_log;
  inference_log =
      map (λ (l : InferenceLog). record l { rfp_id = forget gone l.rfp_id }) s.inference_log;
}

-- The paths that `_defer_source_file_destroy` stages.
abbrev pub staged : List Rfp → List String
staged [] = []
staged (r ∷ rs) = and_path r.stored_path (staged rs)
  where
    and_path : Option String → List String → List String
    and_path none ps = ps
    and_path (some p) ps = if str_eq p "" then ps else p ∷ ps

-- A handler's outcome: its reply, the tables, and the paths to unlink after the commit.
abbrev pub Deletion : Type 0
Deletion = Reply × Session × List String

abbrev pub delete_found : Option Rfp → Session → Deletion
delete_found none s = (http_exception 404, s, [])
delete_found (some rfp) s = (responded 303, delete_rfps (λ i. i == rfp.id) s, staged (rfp ∷ []))

unfoldable pub delete_matrix : WebWorld → Account → String → Session → Deletion
unfolding get_rfp delete_rfps
delete_matrix w account rfp_id s = delete_found (get_rfp w s rfp_id account) s

abbrev pub owns : Account → List Rfp → ℕ → Bool
owns account rfps i = any (λ (r : Rfp). r.id == i && r.account_id == account.id) rfps

abbrev pub is_account : Account → ℕ → Bool
is_account account i = i == account.id

-- The rows that go with an account besides its solicitations, and those that forget it.
abbrev pub delete_account_rows : Account → Session → Session
delete_account_rows account s = record s {
  accounts = keep (λ (a : Account). not (is_account account a.id)) s.accounts;
  sessions = keep (λ (r : SessionRow). not (refers (is_account account) r.account_id)) s.sessions;
  reset_tokens = keep (λ (t : ResetToken). not (is_account account t.account_id)) s.reset_tokens;
  entitlements = keep (λ (e : Entitlement). not (is_account account e.account_id)) s.entitlements;
  audit_events =
      map (λ (e : AuditEvent). record e { actor_id = forget (is_account account) e.actor_id })
        s.audit_events;
  inference_log =
      map (λ (l : InferenceLog). record l { account_id = forget (is_account account) l.account_id })
        s.inference_log;
  corrections =
      map (λ (c : Correction). record c { account_id = forget (is_account account) c.account_id })
        s.corrections;
}

unfoldable pub delete_account : Account → Session → Deletion
unfolding delete_rfps
delete_account account s = (
  responded 303,
  delete_account_rows account (delete_rfps (owns account s.rfps) s),
  staged (keep (λ (r : Rfp). r.account_id == account.id) s.rfps),
)

-- `run_deferred_unlinks`: a path that cannot be unlinked is left, and logged.
unfoldable pub run_deferred_unlinks : (String → Bool) → List String → Disk → Disk
run_deferred_unlinks can_unlink [] disk = disk
run_deferred_unlinks can_unlink (p ∷ ps) disk =
    run_deferred_unlinks can_unlink ps (if can_unlink p then unlink p disk else disk)

-- `get_db` around a deletion: the files go only after the commit.
unfoldable pub settle_deletion :
    (String → Bool) → Session → Disk → Deletion → Reply × Session × Disk
unfolding run_deferred_unlinks
settle_deletion can_unlink before disk (responded status, s, pending) =
    (responded status, s, run_deferred_unlinks can_unlink pending disk)
settle_deletion can_unlink before disk (http_exception status, s, pending) =
    (http_exception status, before, disk)
