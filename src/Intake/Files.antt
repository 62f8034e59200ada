-- ===== src/Intake/Files.antt =====
-- app/pipeline/intake_files.py: what an upload is, by its bytes. The reader of ZIP directories is a
-- parameter: it gives the entries of an archive, or nothing where it raises `BadZipFile`.
use rfp_shred.Prelude.{
  Bool, List, Option, String, Text, [], any, codes, drop, if◌then◌else◌, keep, length, ltb, max,
  none, not, some, ℕ, ◌%◌, ◌&&◌, ◌*◌, ◌+◌, ◌-◌, ◌==◌, ◌||◌, ◌∷◌,
}
use rfp_shred.Results.{Result, returned, raised}
use rfp_shred.Pipeline.TextUtils.{text_eq}
use rfp_shred.Pipeline.TextUtils.Normalize.{Unicode}
use rfp_shred.Pipeline.TextUtils.Containment.{starts_with}

abbrev pub Bytes : Type 0
Bytes = List ℕ

-- `IntakeRejection`, with its status and its detail, or any other exception. Of a detail the parts that
-- are formatted into it are left out.
pub data Failure : Type 0 where
  rejection : ℕ → String → Failure
  crash : Failure

pub data FileType : Type 0 where
  pdf zip docx : FileType

-- `zipfile.ZipInfo`. `content` is what `zf.read` returns, or nothing where it raises.
pub record ZipInfo : Type 0 where
  pub filename : Text
  pub is_dir : Bool
  pub file_size : ℕ
  pub compress_size : ℕ
  pub flag_bits : ℕ
  pub content : Option Bytes

pub data EntryKind : Type 0 where
  pdf_entry docx_entry : EntryKind

pub record ZipEntry : Type 0 where
  pub name : Text
  pub kind : EntryKind
  pub data_bytes : Bytes

abbrev pub pdf_magic : Bytes
pdf_magic = codes "%PDF"

abbrev pub zip_magic : Bytes
zip_magic = 0x50 ∷ 0x4b ∷ 3 ∷ 4 ∷ []

abbrev pub bomb_ratio : ℕ
bomb_ratio = 100

-- `str.endswith`
abbrev pub ends_with : Text → Text → Bool
ends_with suffix t = text_eq (drop (length t - length suffix) t) suffix

abbrev pub names : Text → List ZipInfo → Bool
names t = any (λ (i : ZipInfo). text_eq i.filename t)

abbrev pub sniff_zip : Option (List ZipInfo) → Option FileType
sniff_zip none = none
sniff_zip (some infos) =
    if names (codes "word/document.xml") infos || names (codes "[Content_Types].xml") infos
    then some docx
    else some zip

unfoldable pub sniff_type : (Bytes → Option (List ZipInfo)) → Bytes → Option FileType
unfolding starts_with
sniff_type open_zip bytes =
    if starts_with pdf_magic bytes
    then some pdf
    else if starts_with zip_magic bytes
    then sniff_zip (open_zip bytes)
    else none

abbrev pub total : (ZipInfo → ℕ) → List ZipInfo → ℕ
total size [] = 0
total size (i ∷ is) = size i + total size is

-- `not i.is_dir() and not i.filename.startswith("__MACOSX")`
unfoldable pub is_member : ZipInfo → Bool
unfolding starts_with
is_member i = not i.is_dir && not (starts_with (codes "__MACOSX") i.filename)

abbrev pub is_encrypted : ZipInfo → Bool
is_encrypted i = i.flag_bits % 2 == 1

abbrev pub file_sizes : List ZipInfo → ℕ
file_sizes = total (λ i. i.file_size)

abbrev pub compressed_sizes : List ZipInfo → ℕ
compressed_sizes infos = max 1 (total (λ i. max 1 i.compress_size) infos)

abbrev pub entry_kind : Unicode → Text → Option EntryKind
entry_kind u filename =
    let lower = u.lower filename in
    if ends_with (codes ".pdf") lower
    then some pdf_entry
    else if ends_with (codes ".docx") lower
    then some docx_entry
    else none

abbrev pub read_as : Text → Option Bytes → EntryKind → Result Failure ZipEntry
read_as name none kind = raised crash
read_as name (some bytes) kind = returned (record { name = name; kind = kind; data_bytes = bytes })

abbrev pub read_kind : ZipInfo → Option EntryKind → Result Failure ZipEntry
read_kind i none = raised (rejection 422 "ZIP must contain only PDF or DOCX files")
read_kind i (some kind) = read_as i.filename i.content kind

-- One round of the loop over the members.
abbrev pub read_entry : Unicode → ZipInfo → Result Failure ZipEntry
read_entry u i =
    if is_encrypted i
    then raised (rejection 422 "ZIP contains encrypted entries")
    else read_kind i (entry_kind u i.filename)

abbrev pub and_entry :
    Result Failure ZipEntry → Result Failure (List ZipEntry) → Result Failure (List ZipEntry)
and_entry (raised e) rest = raised e
and_entry (returned x) (raised e) = raised e
and_entry (returned x) (returned xs) = returned (x ∷ xs)

unfoldable pub read_entries : Unicode → List ZipInfo → Result Failure (List ZipEntry)
read_entries u [] = returned []
read_entries u (i ∷ is) = and_entry (read_entry u i) (read_entries u is)

abbrev pub some_entries : Result Failure (List ZipEntry) → Result Failure (List ZipEntry)
some_entries (raised e) = raised e
some_entries (returned []) = raised (rejection 422 "ZIP contains no PDF or DOCX files")
some_entries (returned (x ∷ xs)) = returned (x ∷ xs)

-- The checks on the members. The ratio of two sizes is compared as a product.
abbrev pub check_infos :
    Unicode → (max_entries max_upload_bytes : ℕ) → List ZipInfo → Result Failure (List ZipEntry)
check_infos u max_entries max_upload_bytes infos =
    if ltb max_entries (length infos)
    then raised (rejection 422 "ZIP contains too many files")
    else if ltb (max_upload_bytes * 5) (file_sizes infos)
    then raised (rejection 422 "ZIP expands beyond the allowed size")
    else if ltb (bomb_ratio * compressed_sizes infos) (file_sizes infos)
    then raised (rejection 422 "ZIP rejected: decompression bomb check failed")
    else some_entries (read_entries u infos)

abbrev pub validate_infos :
    Unicode
    → (max_entries max_upload_bytes : ℕ) → Option (List ZipInfo)
    → Result Failure (List ZipEntry)
validate_infos u max_entries max_upload_bytes none =
    raised (rejection 422 "This ZIP file could not be read")
validate_infos u max_entries max_upload_bytes (some infos) =
    check_infos u max_entries max_upload_bytes (keep is_member infos)

unfoldable pub validate_zip_bytes :
    Unicode
    → (Bytes → Option (List ZipInfo))
    → (max_entries max_upload_bytes : ℕ) → Bytes
    → Result Failure (List ZipEntry)
unfolding read_entries is_member
validate_zip_bytes u open_zip max_entries max_upload_bytes bytes =
    validate_infos u max_entries max_upload_bytes (open_zip bytes)

-- What `pikepdf.open(path, password="")` does.
pub data PikepdfOpen : Type 0 where
  opened password_error pdf_error other_open_error : PikepdfOpen

-- What `PdfReader(path)` finds, with the answer of `decrypt("")`.
pub data PypdfRead : Type 0 where
  plain unreadable : PypdfRead
  encrypted : ℕ → PypdfRead

abbrev pub unreadable_pdf : Failure
unreadable_pdf = rejection 422 "This PDF could not be read"

abbrev pub encrypted_pdf : Failure
encrypted_pdf = rejection 422 "This PDF is encrypted and cannot be processed"

-- `probe_encrypted_pdf`: what it raises. Where `pikepdf` is not installed, `pypdf` decides.
unfoldable pub probe_encrypted_pdf : Option PikepdfOpen → PypdfRead → Option Failure
probe_encrypted_pdf (some opened) read = none
probe_encrypted_pdf (some password_error) read = some encrypted_pdf
probe_encrypted_pdf (some pdf_error) read = some unreadable_pdf
probe_encrypted_pdf (some other_open_error) read = some crash
probe_encrypted_pdf none plain = none
probe_encrypted_pdf none (encrypted outcome) = if outcome == 0 then some encrypted_pdf else none
probe_encrypted_pdf none unreadable = some unreadable_pdf
