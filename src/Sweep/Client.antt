-- ===== src/Sweep/Client.antt =====
-- app/sweep/client.py and app/sweep/matcher.py: the parsing of notices, the paging through a window,
-- the checks on an attachment, and the match with a watchlist. The HTTP client is a script that
-- answers the n-th request.
use rfp_shred.Prelude.{
  Bool, List, Option, String, [], any, false, if◌then◌else◌, leb, length, ltb, none, not, some,
  str_eq, suc, true, zero, ℕ, ◌&&◌, ◌*◌, ◌++◌, ◌+◌, ◌∷◌,
}
use rfp_shred.Results.{Result, returned, raised}
use rfp_shred.Models.{
  oversize_attachment, attachment_fetch_failed, invalid_attachment_type, call_failed,
  missing_notice_id, unrecognized_field, SweepError,
}
use rfp_shred.Intake.Files.{Bytes, FileType, ZipInfo, sniff_type}

-- `naics` of a raw notice: one value, or a list in which falsy values are `none`.
pub data RawNaics : Type 0 where
  one : String → RawNaics
  many : List (Option String) → RawNaics

-- An entry of the answer's `opportunitiesData`. A key that is missing or falsy is `none`; of the dates
-- `_parse_dt` gives the instant.
pub record RawNotice : Type 0 where
  pub unknown_keys : List String
  pub notice_id : Option String
  pub title : Option String
  pub naics : Option RawNaics
  pub naics_codes : Option RawNaics
  pub set_aside : Option String
  pub solicitation_number : Option String
  pub response_url : Option String
  pub resource_links : List String
  pub ui_link : Option String
  pub posted_at : Option ℕ
  pub due_at : Option ℕ

-- `SamNoticeData`, with the solicitation number of its payload.
pub record SamNoticeData : Type 0 where
  pub notice_id : String
  pub title : String
  pub naics : List String
  pub set_aside : Option String
  pub posted_at : Option ℕ
  pub due_at : Option ℕ
  pub solicitation_number : Option String
  pub attachment_url : Option String

-- `FetchResult`
pub record FetchResult : Type 0 where
  pub notices : List SamNoticeData
  pub errors : List SweepError
  pub calls : ℕ

abbrev pub page_limit : ℕ
page_limit = 1000

-- `a or b`
abbrev pub or_value {ℓ} : {A : Type ℓ} → Option A → Option A → Option A
or_value none b = b
or_value (some a) b = some a

abbrev pub somes : List (Option String) → List String
somes [] = []
somes (none ∷ xs) = somes xs
somes (some x ∷ xs) = x ∷ somes xs

abbrev pub naics_of : Option RawNaics → List String
naics_of none = []
naics_of (some (one t)) = t ∷ []
naics_of (some (many ts)) = somes ts

abbrev pub first_link : List String → Option String
first_link [] = none
first_link (l ∷ ls) = some l

abbrev pub text_or_empty : Option String → String
text_or_empty none = ""
text_or_empty (some t) = t

abbrev pub data_of : RawNotice → String → SamNoticeData
data_of raw notice_id = record {
  notice_id = notice_id;
  title = text_or_empty raw.title;
  naics = naics_of (or_value raw.naics raw.naics_codes);
  set_aside = raw.set_aside;
  posted_at = raw.posted_at;
  due_at = raw.due_at;
  solicitation_number = raw.solicitation_number;
  attachment_url = or_value raw.response_url (or_value (first_link raw.resource_links) raw.ui_link);
}

abbrev pub warn_unknown : List String → List SweepError → List SweepError
warn_unknown [] errors = errors
warn_unknown (k ∷ ks) errors = errors ++ unrecognized_field (k ∷ ks) ∷ []

abbrev pub with_id :
    Option String → RawNotice → List SweepError → Option SamNoticeData × List SweepError
with_id none raw errors = (none, errors ++ missing_notice_id ∷ [])
with_id (some i) raw errors = (some (data_of raw i), errors)

-- The list of errors that the parser appends to is returned.
unfoldable pub parse_notice : RawNotice → List SweepError → Option SamNoticeData × List SweepError
parse_notice raw errors = with_id raw.notice_id raw (warn_unknown raw.unknown_keys errors)

abbrev pub keep_notice : Option SamNoticeData × List SweepError → FetchResult → FetchResult
keep_notice (none, errors) r = record r { errors = errors }
keep_notice (some n, errors) r = record r { errors = errors; notices = r.notices ++ n ∷ [] }

-- The loop over the notices of a page.
unfoldable pub keep_notices : List RawNotice → FetchResult → FetchResult
unfolding parse_notice
keep_notices [] r = r
keep_notices (raw ∷ raws) r = keep_notices raws (keep_notice (parse_notice raw r.errors) r)

-- The answer to a request: the page, or nothing where the request raised.
abbrev pub Search : Type 0
Search = ℕ → Option (List RawNotice)

abbrev pub call_failed_at : ℕ → FetchResult → FetchResult
call_failed_at offset r = record r { errors = r.errors ++ call_failed offset ∷ [] }

abbrev pub call_made : FetchResult → FetchResult
call_made r = record r { calls = r.calls + 1 }

-- One round: whether the loop goes on, and the result so far.
abbrev pub on_page : Option (List RawNotice) → ℕ → FetchResult → Bool × FetchResult
on_page none offset r = (leb (offset + page_limit) (10 * page_limit), call_failed_at offset r)
on_page (some raws) offset r = (not (ltb (length raws) page_limit), keep_notices raws (call_made r))

module _ (search : Search) where
  -- The loop, on fuel: `n` requests have been made, so that `offset` is `n * PAGE_LIMIT`. Without an
  -- end of the loop within the fuel there is no result.
  unfoldable pub fetch_from : (fuel n : ℕ) → FetchResult → Option FetchResult
  unfolding keep_notices
  fetch_from zero n r = none
  fetch_from (suc fuel) n r =
      let (more, r') = on_page (search n) (n * page_limit) r in
      let rest = fetch_from fuel (n + 1) r' in if more then rest else some r'

  unfoldable pub fetch_postings : (fuel : ℕ) → Option FetchResult
  unfolding fetch_from
  fetch_postings fuel = fetch_from fuel 0 (record { notices = []; errors = []; calls = 0 })

-- What `_get_bytes` gives, or nothing where it raises.
abbrev pub Download : Type 0
Download = String → Option Bytes

abbrev pub admit_attachment : Option FileType → Bytes → Result SweepError Bytes
admit_attachment none bytes = raised invalid_attachment_type
admit_attachment (some kind) bytes = returned bytes

abbrev pub check_attachment :
    (Bytes → Option (List ZipInfo)) → ℕ → Option Bytes → Result SweepError Bytes
check_attachment open_zip max_bytes none = raised attachment_fetch_failed
check_attachment open_zip max_bytes (some bytes) =
    if ltb max_bytes (length bytes)
    then raised oversize_attachment
    else admit_attachment (sniff_type open_zip bytes) bytes

-- What it raises is the entry that the sweep makes of it.
unfoldable pub fetch_attachment :
    (Bytes → Option (List ZipInfo)) → Download → (max_bytes : ℕ) → String → Result SweepError Bytes
unfolding sniff_type
fetch_attachment open_zip download max_bytes url =
    check_attachment open_zip max_bytes (download url)

abbrev pub is_member : List String → String → Bool
is_member xs t = any (str_eq t) xs

abbrev pub watches_set_aside : List String → String → Bool
watches_set_aside [] t = true
watches_set_aside (w ∷ ws) t = is_member (w ∷ ws) t

unfoldable pub matches_watchlist :
    SamNoticeData → (watch_naics watch_set_asides : List String) → Bool
matches_watchlist notice [] watch_set_asides = false
matches_watchlist notice (w ∷ ws) watch_set_asides =
    any (is_member (w ∷ ws)) notice.naics
    && watches_set_aside watch_set_asides (text_or_empty notice.set_aside)
