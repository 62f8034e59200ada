-- ===== src/Intake/Zip.antt =====
-- app/pipeline/intake_files.py: what an accepted archive is like.
use rfp_shred.Prelude.{
  All, Bool-cases, List, Option, [], arith, false, inl, inr, keep, length, ltb, map, none, refl,
  some, ℕ, ◌*◌, ◌∷◌, ◌≡◌, ◌≢◌, ◌≤◌,
}
use rfp_shred.Results.{Result, returned, raised}
use rfp_shred.Intake.Files.{
  validate_infos, bomb_ratio, check_infos, compressed_sizes, file_sizes, entry_kind, read_as,
  is_member, rejection, read_kind, Bytes, some_entries, is_encrypted, read_entry, EntryKind,
  and_entry, validate_zip_bytes, read_entries, ZipInfo, ZipEntry, Failure,
}
use rfp_shred.Pipeline.TextUtils.Normalize.{Unicode}

and_entry-returned :
    (a : Result Failure ZipEntry) (b : Result Failure (List ZipEntry)) (es : List ZipEntry)
    → and_entry a b ≡ returned es
    → (x : ZipEntry) × (xs : List ZipEntry) × (a ≡ returned x) × (b ≡ returned xs) × (es ≡ x ∷ xs)
and_entry-returned (raised e) b es h = cc
and_entry-returned (returned x) (raised e) es h = cc
and_entry-returned (returned x) (returned xs) es h = (x, xs, refl, refl, cc)

read_kind-returned :
    (i : ZipInfo) (k : Option EntryKind) (x : ZipEntry)
    → read_kind i k ≡ returned x
    → x.name ≡ i.filename
read_kind-returned i none x h = cc
read_kind-returned i (some k) x h = for_content i.content h
  where
    for_content : (c : Option Bytes) → read_as i.filename c k ≡ returned x → x.name ≡ i.filename
    for_content none h = cc
    for_content (some bytes) h = cc

read_entry-returned :
    (u : Unicode) (i : ZipInfo) (x : ZipEntry)
    → read_entry u i ≡ returned x
    → (is_encrypted i ≡ false) × (x.name ≡ i.filename)
read_entry-returned u i x h = elim (Bool-cases (is_encrypted i)) [
  | inl e ↦
      let bad : read_entry u i ≡ raised (rejection 422 "ZIP contains encrypted entries") =
        rw e refl in
      cc
  | inr e ↦ (
    e,
    read_kind-returned i (entry_kind u i.filename) x
        (let same : read_entry u i ≡ read_kind i (entry_kind u i.filename) = rw e refl in cc),
  )
]

read_entries-returned :
    (u : Unicode) (infos : List ZipInfo) (es : List ZipEntry)
    → read_entries u infos ≡ returned es
    → All (λ i. is_encrypted i ≡ false) infos
      × (map (λ (x : ZipEntry). x.name) es ≡ map (λ (i : ZipInfo). i.filename) infos)
unfolding read_entries
read_entries-returned u [] es h = let same : [] ≡ es = cc in (tt, rw (← same) refl)
read_entries-returned u (i ∷ is) es h =
    let (x, xs, hx, hxs, same) = and_entry-returned (read_entry u i) (read_entries u is) es h in
    let one = read_entry-returned u i x hx in
    let more = read_entries-returned u is xs hxs in
    ((one.0, more.0), rw same (rw (one.1, more.1) refl))

some_entries-returned :
    (r : Result Failure (List ZipEntry)) (es : List ZipEntry)
    → some_entries r ≡ returned es
    → (r ≡ returned es) × (es ≢ [])
some_entries-returned (raised e) es h = cc
some_entries-returned (returned []) es h = cc
some_entries-returned (returned (x ∷ xs)) es h = (cc, λ e. cc)

-- An archive that is accepted has no more members than allowed, expands to at most five times the
-- greatest upload and to at most a hundred times its compressed size, has no encrypted member, and
-- gives one entry for each member, in the order of the archive, and at least one.
pub validate_zip_bytes-bounds :
    (u : Unicode) (open_zip : Bytes → Option (List ZipInfo)) (max_entries max_upload_bytes : ℕ)
    (bytes : Bytes) (infos : List ZipInfo) (es : List ZipEntry)
    → open_zip bytes ≡ some infos
    → validate_zip_bytes u open_zip max_entries max_upload_bytes bytes ≡ returned es
    → (length (keep is_member infos) ≤ max_entries)
      × (file_sizes (keep is_member infos) ≤ max_upload_bytes * 5)
      × (file_sizes (keep is_member infos) ≤ 100 * compressed_sizes (keep is_member infos))
      × All (λ i. is_encrypted i ≡ false) (keep is_member infos)
      × (map (λ (x : ZipEntry). x.name) es
          ≡ map (λ (i : ZipInfo). i.filename) (keep is_member infos))
      × (es ≢ [])
unfolding validate_zip_bytes
validate_zip_bytes-bounds u open_zip max_entries max_upload_bytes bytes infos es o h =
    for_members (keep is_member infos) (
      let opened : validate_infos u max_entries max_upload_bytes (open_zip bytes)
          ≡ check_infos u max_entries max_upload_bytes (keep is_member infos) =
        rw o refl in
      cc)
  where
    for_members :
        (is : List ZipInfo)
        → check_infos u max_entries max_upload_bytes is ≡ returned es
        → (length is ≤ max_entries)
          × (file_sizes is ≤ max_upload_bytes * 5)
          × (file_sizes is ≤ 100 * compressed_sizes is)
          × All (λ i. is_encrypted i ≡ false) is
          × (map (λ (x : ZipEntry). x.name) es ≡ map (λ (i : ZipInfo). i.filename) is)
          × (es ≢ [])
    for_members is h =
        let few : ltb max_entries (length is) ≡ false = ground arith in
        let small : ltb (max_upload_bytes * 5) (file_sizes is) ≡ false = ground arith in
        let dense : ltb (bomb_ratio * compressed_sizes is) (file_sizes is) ≡ false = ground arith in
        let whole : some_entries (read_entries u is) ≡ returned es = ground arith in
        let (read, some_read) = some_entries-returned (read_entries u is) es whole in
        let (plain, named) = read_entries-returned u is es read in
        (ground arith, ground arith, ground arith, plain, named, some_read)
