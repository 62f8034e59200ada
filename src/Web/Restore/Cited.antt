-- ===== src/Web/Restore/Cited.antt =====
-- app/web/routes_pages.py: what the restoring of a dropped line adds to the matrix.
use rfp_shred.Prelude.{
  arith, All, All-map, List, ==_iff, first, sym, ◌<◌, ◌≤◌, ◌∙◌, ◌≢◌, Bool, Bool-cases, Option,
  String, Text, [], ap, drop, false, false≢true, first-passes, if◌then◌else◌, inl, inr, is_some,
  length, ltb, none, not, refl, some, take, true, ℕ, ◌&&◌, ◌++◌, ◌==◌, ◌∷◌, ◌≡◌, ◌⊎◌,
}
use rfp_shred.Results.{Result, returned, raised}
use rfp_shred.Models.{Session, Account, Rfp, AuditDrop, Requirement}
use rfp_shred.Pipeline.Items.{Pages, page_text, MinedItem}
use rfp_shred.Pipeline.Audit.{audit_items, audit_from, failure_on, settle, normalized, Reason}
use rfp_shred.Pipeline.Audit.Verified.{failure_on-IsCited, IsCited}
use rfp_shred.Auth.Sessions.{http_exception, responded, Reply}
use rfp_shred.Intake.Service.{Disk}
use rfp_shred.Intake.Pagemap.{File}
use rfp_shred.Worker.Runner.{prepare_processing_pdf, Outside, RunSettings, RunError}
use rfp_shred.Worker.Process.{newest_run}
use rfp_shred.Worker.Published.{prepare_processing_pdf-IsUnpublished}
use rfp_shred.Web.Matrices.{WebWorld, get_rfp, has_source}
use rfp_shred.Web.Matrices.Access.{IsNamed, get_rfp-IsNamed}
use rfp_shred.Web.Restore.{
  next_seq, restored_row, read_prepared, load_pages, candidate, passes_again, passing_excerpt,
  with_excerpt, reaudit, on_drop, find_drop, drop_of_rfp, restore_audit_drop,
}

module _ (w : WebWorld) (o : Outside) (settings : RunSettings) (str_nat : ℕ → Text)
    (new_row : ℕ) where
  -- The line that the request names: of the solicitation that it names, and not restored yet.
  pub record IsLine (account : Account) (rfp_id line_id : String) (s : Session) (rfp : Rfp)
      (drop : AuditDrop) : Type 0 where
    pub named : IsNamed w account rfp_id s rfp
    pub asked : w.parse_uuid line_id ≡ some drop.id
    pub in_table : first (λ (d : AuditDrop). d.id == drop.id) s.audit_drops ≡ some drop
    pub of_rfp : drop.rfp_id ≡ rfp.id
    pub is_open : drop.re_included ≡ false

  -- One row of that line was added, above every row of the solicitation, and the audit of the pages of
  -- the stored file finds its excerpt and its text on its page.
  pub record IsRestored (disk : Disk) (account : Account) (rfp_id line_id : String) (s s' : Session)
      : Type 0 where
    pub rfp : Rfp
    pub drop : AuditDrop
    pub line : IsLine account rfp_id line_id s rfp drop
    pub pages : Pages
    pub loaded : (load_pages w o settings str_nat new_row disk rfp s).0 ≡ some pages
    pub row : Requirement
    pub added : s'.requirements ≡ s.requirements ++ row ∷ []
    pub row_of : row.rfp_id ≡ rfp.id
    pub body_of : row.body ≡ drop.text
    pub last : All (λ (r : Requirement). (r.rfp_id ≢ rfp.id) ⊎ (r.seq < row.seq)) s.requirements
    pub item : MinedItem
    pub cited : IsCited o.unicode o.matching_blocks pages item
    pub same_page : item.page ≡ row.page
    pub same_text : item.text ≡ row.body
    pub same_excerpt : item.excerpt ≡ row.excerpt

  -- The rows stay as they are, or one of the line is added.
  abbrev pub Leaves : Disk → Account → (rfp_id line_id : String) → Session → Session → Type 0
  Leaves disk account rfp_id line_id s s' =
      (s'.requirements ≡ s.requirements) ⊎ IsRestored disk account rfp_id line_id s s'

  next_seq-cons :
      (i : ℕ) (r : Requirement) (rows : List Requirement)
      → (next_seq i rows ≤ next_seq i (r ∷ rows))
        × ((r.rfp_id ≢ i) ⊎ (r.seq < next_seq i (r ∷ rows)))
  unfolding next_seq
  next_seq-cons i r rows = elim (Bool-cases (r.rfp_id == i)) [
    | inl e ↦ rw e (omega arith, inr (omega arith))
    | inr e ↦ rw e (omega arith, inl (λ same. ground (arith, ==_iff r.rfp_id i)))
  ]

  next_seq-last :
      (i : ℕ) (rows : List Requirement)
      → All (λ (r : Requirement). (r.rfp_id ≢ i) ⊎ (r.seq < next_seq i rows)) rows
  next_seq-last i [] = tt
  next_seq-last i (r ∷ rows) =
      let (grows, first_one) = next_seq-cons i r rows in
      (first_one, All-map (λ q h. still_below q grows h) rows (next_seq-last i rows))
    where
      still_below :
          (q : Requirement)
          → next_seq i rows ≤ next_seq i (r ∷ rows)
          → (q.rfp_id ≢ i) ⊎ (q.seq < next_seq i rows)
          → (q.rfp_id ≢ i) ⊎ (q.seq < next_seq i (r ∷ rows))
      still_below q grows (inl h) = inl h
      still_below q grows (inr h) = inr (omega (arith, h, grows))

  load_pages-requirements :
      (disk : Disk) (rfp : Rfp) (s : Session)
      → (load_pages w o settings str_nat new_row disk rfp s).1.requirements ≡ s.requirements
  unfolding load_pages
  load_pages-requirements disk rfp s =
      elim (Bool-cases (has_source disk rfp.stored_path && is_some (newest_run rfp.id s))) [
        | inl e ↦ rw e (
            for_prepared (prepare_processing_pdf o settings rfp s)
              (prepare_processing_pdf-IsUnpublished o settings rfp s).0)
        | inr e ↦ rw e refl
      ]
    where
      for_prepared :
          (r : Result RunError File × Session)
          → r.1.requirements ≡ s.requirements
          → (read_prepared w o settings str_nat new_row r).1.requirements ≡ s.requirements
      for_prepared (raised e, t) h = h
      for_prepared (returned pdf, t) h = h

  passes_again-IsCited :
      (pages : Pages) (drop : AuditDrop) (excerpt : Text)
      → passes_again w o settings str_nat new_row pages drop excerpt ≡ true
      → IsCited o.unicode o.matching_blocks pages
          (candidate w o settings str_nat new_row drop excerpt)
  unfolding audit_items audit_from
  passes_again-IsCited pages drop excerpt h =
      let item = candidate w o settings str_nat new_row drop excerpt in
      for_reason
        (failure_on o.unicode o.matching_blocks item
          (page_text (normalized o.unicode o.matching_blocks pages) drop.page))
        (failure_on-IsCited o.unicode o.matching_blocks pages item) h
    where
      for_reason :
          (r : Option Reason)
          → (r ≡ none
              → IsCited o.unicode o.matching_blocks pages
                  (candidate w o settings str_nat new_row drop excerpt))
          → ltb 0 (
              length
                (settle o.unicode o.matching_blocks
                  (candidate w o settings str_nat new_row drop excerpt)
                  r
                  (record { passed = []; failures = [] })).passed)
            ≡ true
          → IsCited o.unicode o.matching_blocks pages
              (candidate w o settings str_nat new_row drop excerpt)
      for_reason none cited g = cited refl
      for_reason (some r) cited g = absurd (false≢true g)

  reaudit-IsRestored :
      (disk : Disk) (account : Account) (rfp_id line_id : String) (rfp : Rfp) (drop : AuditDrop)
      (s : Session)
      → IsLine account rfp_id line_id s rfp drop
      → Leaves disk account rfp_id line_id s (
          reaudit w o settings str_nat new_row drop account rfp
            (load_pages w o settings str_nat new_row disk rfp s))
  reaudit-IsRestored disk account rfp_id line_id rfp drop s line =
      for_loaded (load_pages w o settings str_nat new_row disk rfp s) refl
        (load_pages-requirements disk rfp s)
    where
      for_excerpt :
          (pages : Pages) (t : Session) (e : Option Text)
          → (load_pages w o settings str_nat new_row disk rfp s).0 ≡ some pages
          → t.requirements ≡ s.requirements
          → passing_excerpt w o settings str_nat new_row (some pages) drop ≡ e
          → Leaves disk account rfp_id line_id s
              (with_excerpt w o settings str_nat new_row e (some pages) drop account rfp t)
      for_excerpt pages t none loaded same p = inl same
      for_excerpt pages t (some excerpt) loaded same p = inr (record {
        rfp = rfp;
        drop = drop;
        pages = pages;
        line = line;
        loaded = loaded;
        row =
            restored_row w o settings str_nat new_row rfp (next_seq rfp.id s.requirements) drop.seq
              drop.page drop.text excerpt;
        added = rw same refl;
        row_of = refl;
        body_of = refl;
        last = next_seq-last rfp.id s.requirements;
        item = candidate w o settings str_nat new_row drop excerpt;
        cited = passes_again-IsCited pages drop excerpt (
            first-passes (passes_again w o settings str_nat new_row pages drop)
              (drop.excerpt ∷ take 200 drop.text ∷ []) excerpt p);
        same_page = refl;
        same_text = refl;
        same_excerpt = refl;
      })

      for_loaded :
          (l : Option Pages × Session)
          → load_pages w o settings str_nat new_row disk rfp s ≡ l
          → l.1.requirements ≡ s.requirements
          → Leaves disk account rfp_id line_id s
              (reaudit w o settings str_nat new_row drop account rfp l)
      for_loaded (none, t) loaded same = inl same
      for_loaded (some pages, t) loaded same =
          for_excerpt pages t (passing_excerpt w o settings str_nat new_row (some pages) drop)
            (ap (λ p. p.0) loaded) same refl

  -- Restoring a line that the audit dropped adds no row that is not in the document: the rows stay as
  -- they are, or one row is added, of the line that the request names, which is in the table, was not
  -- restored before, and belongs to the solicitation that the request names, the account's own. Its
  -- number is above those of the solicitation's rows, and its excerpt and its text, normalized, are on
  -- its page of the file that is stored now for the solicitation.
  pub restore_audit_drop-IsRestored :
      (disk : Disk) (account : Account) (rfp_id line_id : String) (s : Session)
      → let s' =
          (restore_audit_drop w o settings str_nat new_row disk account rfp_id line_id s).1 in
        (s'.requirements ≡ s.requirements) ⊎ IsRestored disk account rfp_id line_id s s'
  unfolding restore_audit_drop
  restore_audit_drop-IsRestored disk account rfp_id line_id s =
      for_rfp (get_rfp w s rfp_id account) refl
    where
      for_tests :
          (rfp : Rfp) (drop : AuditDrop) (same done : Bool)
          → IsNamed w account rfp_id s rfp
          → w.parse_uuid line_id ≡ some drop.id
          → first (λ (d : AuditDrop). d.id == drop.id) s.audit_drops ≡ some drop
          → (drop.rfp_id == rfp.id) ≡ same
          → drop.re_included ≡ done
          → let r : Reply × Session =
              (if not same then (http_exception 404, s) else if done then (responded 303, s) else (
                responded 303,
                reaudit w o settings str_nat new_row drop account rfp
                    (load_pages w o settings str_nat new_row disk rfp s),
              )) in
            Leaves disk account rfp_id line_id s r.1
      for_tests rfp drop false done named asked found e f = inl refl
      for_tests rfp drop true true named asked found e f = inl refl
      for_tests rfp drop true false named asked found e f =
          reaudit-IsRestored disk account rfp_id line_id rfp drop s (record {
            named = named;
            asked = asked;
            in_table = found;
            of_rfp = (==_iff drop.rfp_id rfp.id).0 e;
            is_open = f;
          })

      for_drop :
          (rfp : Rfp) (p : Option ℕ) (d : Option AuditDrop)
          → IsNamed w account rfp_id s rfp
          → w.parse_uuid line_id ≡ p
          → find_drop w o settings str_nat new_row p s ≡ d
          → Leaves disk account rfp_id line_id s
              (on_drop w o settings str_nat new_row disk account rfp d s).1
      for_drop rfp p none named asked found = inl refl
      for_drop rfp none (some drop) named asked found = cc
      for_drop rfp (some i) (some drop) named asked found =
          let same : drop.id ≡ i =
            (==_iff drop.id i).0
              (first-passes (λ (d : AuditDrop). d.id == i) s.audit_drops drop found) in
          for_tests rfp drop (drop.rfp_id == rfp.id) drop.re_included named
            (asked ∙ ap (λ n. some n) (sym same))
            (ap (λ n. first (λ (d : AuditDrop). d.id == n) s.audit_drops) same ∙ found) refl refl

      for_rfp :
          (r : Option Rfp)
          → get_rfp w s rfp_id account ≡ r
          → Leaves disk account rfp_id line_id s
              (drop_of_rfp w o settings str_nat new_row disk account line_id r s).1
      for_rfp none e = inl refl
      for_rfp (some rfp) e =
          for_drop rfp (w.parse_uuid line_id)
            (find_drop w o settings str_nat new_row (w.parse_uuid line_id) s)
            (get_rfp-IsNamed w account rfp_id s rfp e) refl refl
