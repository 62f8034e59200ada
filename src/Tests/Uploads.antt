-- ===== src/Tests/Uploads.antt =====
-- app/pipeline/intake_files.py, app/web/intake_service.py and app/pipeline/pagemap.py at concrete inputs.
use rfp_shred.Prelude.{
  All, List, Option, [], any, codes, false, keep, length, map, none, refl, some, sort_by, true, ◌*◌,
  ◌++◌, ◌+◌, ◌==◌, ◌∷◌, ◌≡◌, ◌≢◌, ◌≤◌,
}
use rfp_shred.Results.{returned, raised}
use rfp_shred.Queue.{monthly_usage_usd}
use rfp_shred.Models.{Session, Rfp, RfpState, Stage, Account, JobStatus, Requirement}
use rfp_shred.Intake.Files.{
  is_encrypted, probe_encrypted_pdf, pdf_magic, compressed_sizes, rejection, sniff_type, plain,
  file_sizes, read_entries, opened, is_member, validate_zip_bytes, pdf_entry, Bytes, ZipInfo,
  ZipEntry, FileType,
}
use rfp_shred.Intake.Service.{
  by_seq, new_rfp, queue_run, prior_of, register, process_upload, World, Settings, Disk,
}
use rfp_shred.Intake.Pagemap.{
  ocr_loop, flagged_pages, ocr_subpdf, numbered, build_page_map, extract_pages, Tools, PageMap,
}
use rfp_shred.Tests.Samples.{repeated, shop, unlocked_rfp, ascii, twelve_rows}
use rfp_shred.Intake.Outcomes.{
  process_upload_ready, process_upload_new, IsUntouched, status_of, stage_of, shown,
  process_upload_rejected,
}
use rfp_shred.Pipeline.Items.{page_text, Pages}
use rfp_shred.Pipeline.TextUtils.Normalize.{lstrip, strip}
use rfp_shred.Intake.Pages.{build_page_map-keeps, page_no}
use rfp_shred.Pipeline.TextUtils.Containment.{starts_with}
use rfp_shred.Pipeline.TextUtils.{text_eq}
use rfp_shred.Intake.Zip.{validate_zip_bytes-bounds}

abbrev member : ZipInfo
member = record {
  filename = codes "a.pdf";
  is_dir = false;
  file_size = 40;
  compress_size = 30;
  flag_bits = 0;
  content = some (codes "%PDF");
}

abbrev open_zip : Bytes → Option (List ZipInfo)
open_zip bytes = some (member ∷ [])

abbrev entry : ZipEntry
entry = record { name = codes "a.pdf"; kind = pdf_entry; data_bytes = codes "%PDF" }

the_entries : validate_zip_bytes ascii open_zip 5 100 [] ≡ returned (entry ∷ [])
unfolding validate_zip_bytes read_entries is_member starts_with text_eq
the_entries = refl

members : keep is_member (member ∷ []) ≡ member ∷ []
unfolding is_member starts_with
members = refl

validate_zip_bytes-bounds_example :
    (length (keep is_member (member ∷ [])) ≤ 5)
    × (file_sizes (keep is_member (member ∷ [])) ≤ 100 * 5)
    × (file_sizes (keep is_member (member ∷ []))
        ≤ 100 * compressed_sizes (keep is_member (member ∷ [])))
    × All (λ i. is_encrypted i ≡ false) (keep is_member (member ∷ []))
    × (map (λ (x : ZipEntry). x.name) (entry ∷ [])
        ≡ map (λ (i : ZipInfo). i.filename) (keep is_member (member ∷ [])))
    × ((entry ∷ []) ≢ [])
validate_zip_bytes-bounds_example =
    validate_zip_bytes-bounds ascii open_zip 5 100 [] (member ∷ []) (entry ∷ []) refl the_entries

abbrev world : World
world = record {
  unicode = ascii;
  open_zip = open_zip;
  pikepdf = λ b. some opened;
  pypdf = λ b. plain;
  content_sha256 = λ b. "hash";
  tmp_path = "tmp/1.pdf";
  stored_path = λ k. "incoming/1.pdf";
  now = 50;
  month_start = 0;
  new_rfp = 8;
  new_run = 9;
  new_job = 10;
  new_row = λ n. 200 + n;
}

abbrev settings : Settings
settings = record { max_upload_bytes = 1000; max_zip_entries = 5; monthly_inference_cap_usd = 7 }

abbrev uploader : Account
uploader = record {
  id = 2;
  email = "a@b";
  pass_hash = [];
  is_staff = false;
  watch_naics = [];
  watch_set_asides = [];
}

abbrev disk : Disk
disk = "incoming/0.pdf" ∷ []

the_rejection :
    process_upload world settings uploader (codes "GIF8") false disk shop
    ≡ (raised (rejection 415 "Unsupported file type"), disk, shop)
unfolding process_upload sniff_type starts_with
the_rejection = refl

process_upload_rejected_example : (disk ≡ disk) × (shop ≡ shop)
process_upload_rejected_example =
    process_upload_rejected world settings uploader (codes "GIF8") false disk disk shop shop
      (rejection 415 "Unsupported file type") refl the_rejection

abbrev known : Rfp
known = record unlocked_rfp { content_hash = some "hash" }

abbrev unlocked_plant : Session
unlocked_plant = record twelve_rows { rfps = known ∷ [] }

abbrev cloned : Rfp × Session
cloned =
    register world settings (some known)
      (new_rfp world settings uploader FileType.pdf pdf_magic false (some known)) unlocked_plant

abbrev new_disk : Disk
new_disk = "incoming/0.pdf" ∷ "incoming/1.pdf" ∷ []

the_clone :
    process_upload world settings uploader pdf_magic false disk unlocked_plant
    ≡ (returned cloned.0, new_disk, cloned.1)
unfolding process_upload sniff_type starts_with probe_encrypted_pdf sort_by
the_clone = refl

the_prior : prior_of 2 "hash" unlocked_plant.rfps ≡ some known
unfolding sort_by
the_prior = refl

process_upload_ready_example :
    let rows = keep (λ (r : Requirement). r.rfp_id == 8) cloned.1.requirements in
    (cloned.0.state ≡ RfpState.ready)
    × (cloned.0.unlocked_at ≡ known.unlocked_at)
    × (cloned.1.jobs ≡ unlocked_plant.jobs)
    × (cloned.1.runs ≡ unlocked_plant.runs)
    × (map shown rows
        ≡ map shown (
            sort_by by_seq (keep (λ (r : Requirement). r.rfp_id == 1) unlocked_plant.requirements)))
    × All IsUntouched rows
process_upload_ready_example =
    process_upload_ready world settings uploader pdf_magic false disk new_disk unlocked_plant
      cloned.1 cloned.0 known the_prior refl
      (
        refl,
        (refl, (refl, (refl, (refl, (refl, (refl, (refl, (refl, (refl, (refl, (refl, tt))))))))))),
      )
      the_clone

abbrev queued : Rfp × Session
queued =
    queue_run world settings (new_rfp world settings uploader FileType.pdf pdf_magic false none)
      shop

the_upload :
    process_upload world settings uploader pdf_magic false disk shop
    ≡ (returned queued.0, new_disk, queued.1)
unfolding process_upload sniff_type starts_with probe_encrypted_pdf sort_by
the_upload = refl

process_upload_new_example :
    (queued.0.unlocked_at ≡ none)
    × (queued.0.state ≡ RfpState.received)
    × (map stage_of queued.1.runs ≡ map stage_of shop.runs ++ (queued.0.id, Stage.reading) ∷ [])
    × (map status_of queued.1.jobs
        ≡ map status_of shop.jobs ++ (some queued.0.id, JobStatus.queued, 10) ∷ [])
    × (queued.1.requirements ≡ shop.requirements)
unfolding monthly_usage_usd
process_upload_new_example =
    process_upload_new world settings uploader pdf_magic false disk new_disk shop queued.1 queued.0
      (refl, tt) the_upload

-- A page with text, and one that needs OCR; the tool reads it.
abbrev scanned : Tools
scanned = record {
  pdfplumber = some (λ f. returned (some (repeated 60) ∷ none ∷ []));
  pypdf = λ f. returned [];
  sub_pdf = λ f ps. returned [];
  ocrmypdf = none;
  soffice = none;
  libreoffice_lock = true;
}

abbrev read_pages : Pages
read_pages = (1, repeated 60) ∷ (2, []) ∷ []

the_reading : extract_pages ascii.is_space scanned none ≡ returned read_pages
unfolding extract_pages numbered
the_reading = refl

abbrev scan : PageMap
scan = record { pages = read_pages; page_count = 2; ocr_flagged = 2 ∷ []; ocr_failed = 2 ∷ [] }

the_scan : build_page_map ascii.is_space scanned none ≡ returned scan
unfolding build_page_map extract_pages numbered ocr_subpdf ocr_loop strip lstrip page_text
the_scan = refl

the_text : any (λ p. p == 1) (flagged_pages ascii.is_space scanned read_pages) ≡ false
unfolding strip lstrip
the_text = refl

build_page_map-keeps_example :
    (map page_no read_pages ≡ map page_no read_pages)
    × (page_text read_pages 1 ≡ page_text read_pages 1)
build_page_map-keeps_example =
    build_page_map-keeps ascii.is_space scanned none read_pages scan 1 the_reading the_scan the_text
