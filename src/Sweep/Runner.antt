-- ===== src/Sweep/Runner.antt =====
-- app/sweep/runner.py, with the digest of app/sweep/digest.py: one sweep. The errors of a sweep keep
-- their kind, and a digest its addressee. The mailer is taken to return.
use rfp_shred.Prelude.{
  Bool, List, Option, String, [], any, false, if◌then◌else◌, keep, leb, length, ltb, none, some,
  str_eq, true, ℕ, ◌&&◌, ◌++◌, ◌+◌, ◌==◌, ◌||◌, ◌∷◌,
}
use rfp_shred.Results.{Result, returned, raised}
use rfp_shred.Models.{
  of_number, excess_matches_skipped, no_attachment_url, Session, Rfp, RfpState, Origin, Stage,
  ExtractionRun, Account, SweepError, SamNotice, SweepRun, Action, audit,
}
use rfp_shred.Intake.Files.{Bytes, FileType, ZipInfo, sniff_type}
use rfp_shred.Sweep.Client.{
  matches_watchlist, fetch_attachment, SamNoticeData, FetchResult, Download,
}
use rfp_shred.Queue.{priority_sweep, enqueue}

-- The settings that a sweep reads.
pub record SweepSettings : Type 0 where
  pub max_upload_bytes : ℕ
  pub max_sweep_matches_per_run : ℕ

-- What a sweep asks the outside for. The ids of the rows of a match are by the number of solicitations
-- that there are.
pub record SweepWorld : Type 0 where
  pub now : ℕ
  pub finished : ℕ
  pub open_zip : Bytes → Option (List ZipInfo)
  pub download : Download
  pub content_sha256 : Bytes → String
  pub stored_path : ℕ → FileType → String
  pub new_rfp : ℕ → ℕ
  pub new_run : ℕ → ℕ
  pub new_job : ℕ → ℕ
  pub new_sweep : ℕ

-- `DigestEntry`, without its link.
pub record DigestEntry : Type 0 where
  pub solicitation_no : String
  pub title : String
  pub due_at : Option ℕ

abbrev pub from_sweep : Origin → Bool
from_sweep Origin.sweep = true
from_sweep Origin.user = false

abbrev pub same_number : String → Option String → Bool
same_number t none = false
same_number t (some u) = str_eq u t

-- The query of `_already_matched`.
abbrev pub is_match : ℕ → String → Rfp → Bool
is_match account_id solicitation_no r =
    r.account_id == account_id
    && from_sweep r.origin
    && same_number solicitation_no r.solicitation_no

abbrev pub already_matched : ℕ → String → Session → Bool
already_matched account_id solicitation_no s = any (is_match account_id solicitation_no) s.rfps

-- `send_digest`: whether it sent, and the session with the mail.
abbrev pub send_digest : String → List DigestEntry → Session → Bool × Session
send_digest to [] s = (false, s)
send_digest to (e ∷ es) s = (true, record s { outbox = s.outbox ++ to ∷ [] })

abbrev pub stored_notice : SamNoticeData → SamNotice
stored_notice n = record {
  notice_id = n.notice_id;
  title = n.title;
  naics = n.naics;
  set_aside = n.set_aside;
  posted_at = n.posted_at;
  due_at = n.due_at;
}

abbrev pub upsert : SamNoticeData → List SamNotice → List SamNotice
upsert n table =
    if any (λ (row : SamNotice). str_eq row.notice_id n.notice_id) table
    then table
    else table ++ stored_notice n ∷ []

unfoldable pub upsert_all : List SamNoticeData → List SamNotice → List SamNotice
upsert_all [] table = table
upsert_all (n ∷ ns) table = upsert_all ns (upsert n table)

-- `solicitationNumber` of the payload, or the id of the notice.
abbrev pub number_of : SamNoticeData → String
number_of n = text_or n.solicitation_number n.notice_id
  where
    text_or : Option String → String → String
    text_or none d = d
    text_or (some t) d = t

abbrev pub kind_or_pdf : Option FileType → FileType
kind_or_pdf none = FileType.pdf
kind_or_pdf (some k) = k

-- The state of the loop over a founder's notices.
pub record Matching : Type 0 where
  pub session : Session
  pub errors : List SweepError
  pub entries : List DigestEntry
  pub processed : ℕ
  pub skipped_excess : ℕ

-- The state of the loop over the founders: how many matches there are, and whether a digest was sent.
pub record Sweeping : Type 0 where
  pub session : Session
  pub errors : List SweepError
  pub matched : ℕ
  pub digest_sent : Bool

module _ (w : SweepWorld) (settings : SweepSettings) where
  abbrev pub matched_rfp : Account → SamNoticeData → String → Bytes → Session → Rfp
  matched_rfp founder notice sol_no bytes s = record {
    id = w.new_rfp (length s.rfps);
    account_id = founder.id;
    stored_path = some (w.stored_path (length s.rfps) (kind_or_pdf (sniff_type w.open_zip bytes)));
    content_hash = some (w.content_sha256 bytes);
    solicitation_no = some sol_no;
    due_at = notice.due_at;
    state = RfpState.received;
    retain_source = false;
    unlocked_at = none;
    page_count = none;
    origin = Origin.sweep;
    created_at = w.now;
  }

  abbrev pub new_run : Rfp → Session → ExtractionRun
  new_run rfp s = record {
    id = w.new_run (length s.rfps);
    rfp_id = rfp.id;
    stage = Stage.reading;
    heartbeat_at = w.now;
    attempt = 1;
    error = none;
    created_at = w.now;
  }

  abbrev pub add_match : Rfp → Session → Session
  add_match rfp s =
      enqueue w.now (w.new_job (length s.rfps)) (some rfp.id) priority_sweep
        (record s { rfps = s.rfps ++ rfp ∷ []; runs = s.runs ++ new_run rfp s ∷ [] })

  abbrev pub digest_entry : SamNoticeData → String → DigestEntry
  digest_entry notice sol_no = record {
    solicitation_no = sol_no;
    title = notice.title;
    due_at = notice.due_at;
  }

  abbrev pub on_attachment :
      Account → SamNoticeData → String → Result SweepError Bytes → Matching → Matching
  on_attachment founder notice sol_no (raised e) m = record m { errors = m.errors ++ e ∷ [] }
  on_attachment founder notice sol_no (returned bytes) m = record m {
    session = add_match (matched_rfp founder notice sol_no bytes m.session) m.session;
    entries = m.entries ++ digest_entry notice sol_no ∷ [];
  }

  abbrev pub on_url : Account → SamNoticeData → String → Option String → Matching → Matching
  on_url founder notice sol_no none m = record m { errors = m.errors ++ no_attachment_url ∷ [] }
  on_url founder notice sol_no (some url) m =
      on_attachment founder notice sol_no
        (fetch_attachment w.open_zip w.download settings.max_upload_bytes url) m

  unfoldable pub materialize_match : Account → SamNoticeData → String → Matching → Matching
  unfolding fetch_attachment enqueue
  materialize_match founder notice sol_no m = on_url founder notice sol_no notice.attachment_url m

  -- One round of the loop over the fresh notices.
  abbrev pub match_round : Account → SamNoticeData → Matching → Matching
  match_round founder notice m =
      if already_matched founder.id (number_of notice) m.session
      then m
      else if leb settings.max_sweep_matches_per_run m.processed
      then record m { skipped_excess = m.skipped_excess + 1 }
      else materialize_match founder notice (number_of notice)
          (record m { processed = m.processed + 1 })

  unfoldable pub match_all : Account → List SamNoticeData → Matching → Matching
  unfolding materialize_match
  match_all founder [] m = m
  match_all founder (n ∷ ns) m = match_all founder ns (match_round founder n m)

  abbrev pub fresh : Account → List SamNoticeData → List SamNoticeData
  fresh founder notices =
      keep (λ n. matches_watchlist n founder.watch_naics founder.watch_set_asides) notices

  abbrev pub note_excess : ℕ → List SweepError → List SweepError
  note_excess n errors = if ltb 0 n then errors ++ excess_matches_skipped n ∷ [] else errors

  abbrev pub begin : Sweeping → Matching
  begin st = record {
    session = st.session;
    errors = st.errors;
    entries = [];
    processed = 0;
    skipped_excess = 0;
  }

  abbrev pub after_founder : Account → Matching → Sweeping → Sweeping
  after_founder founder m st =
      let (sent, s) = send_digest founder.email m.entries m.session in
      record {
        session = s;
        errors = note_excess m.skipped_excess m.errors;
        matched = st.matched + length m.entries;
        digest_sent = st.digest_sent || sent;
      }

  abbrev pub founder_round : Account → List SamNoticeData → Sweeping → Sweeping
  founder_round founder notices st =
      let m = match_all founder (fresh founder notices) (begin st) in
      if ltb 0 (length founder.watch_naics) then after_founder founder m st else st

  unfoldable pub founders : List Account → List SamNoticeData → Sweeping → Sweeping
  unfolding match_all matches_watchlist
  founders [] notices st = st
  founders (f ∷ fs) notices st = founders fs notices (founder_round f notices st)

  abbrev pub audit_digest : Bool → Session → Session
  audit_digest true s = audit Action.sweep_digest_sent (of_number w.new_sweep) none s
  audit_digest false s = s

  abbrev pub sweep_row : ℕ → ℕ → List SweepError → Option ℕ → SweepRun
  sweep_row found matched errors finished = record {
    id = w.new_sweep;
    started_at = w.now;
    finished_at = finished;
    found = found;
    matched = matched;
    errors = errors;
  }

  abbrev pub finish_sweep : FetchResult → Sweeping → Session
  finish_sweep result st =
      let s = audit_digest st.digest_sent st.session in
      record s {
        sweep_runs =
            s.sweep_runs
            ++ sweep_row (length result.notices) st.matched st.errors (some w.finished) ∷ [];
      }

  -- The row of the sweep, which is added first and assigned to, is added with its final columns.
  unfoldable pub run_sweep_once : FetchResult → Session → Session
  unfolding founders upsert_all
  run_sweep_once result s =
      let s' : Session = record s { sam_notices = upsert_all result.notices s.sam_notices } in
      let staff = keep (λ (a : Account). a.is_staff) s'.accounts in
      finish_sweep result (
        founders staff result.notices
          (record { session = s'; errors = result.errors; matched = 0; digest_sent = false }))
