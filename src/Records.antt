-- ===== src/Records.antt =====
-- `DataFile` of src/data.rs: records, each a header and its payload, in a paged file.
pub mod Batch
pub mod Parse
pub mod Reads
pub mod RoundTrip
use uol_ms_project.Prelude.{
  ℕ, ◌+◌, ◌-◌, Bool, ◌&&◌, ◌||◌, not, Option, none, some, List, [], ◌∷◌, length, take, drop, slice,
  replicate, ◌==◌, leb, ltb, if◌then◌else◌, add64,
}
use uol_ms_project.Prelude.Exec.{Exec, pure, raise, gets, modify, lift, zoom, ◌>>=◌, ◌>>◌}
use uol_ms_project.Error.{
  Result, ok, err, corrupt, panic, record_header, record_identity, record_payload,
}
use uol_ms_project.Bytes.{Bytes}
use uol_ms_project.Crc32.{crc32c}
use uol_ms_project.Format.RecordHeader
use uol_ms_project.Format.RecordHeader.{RecordHeader, header_len}
use uol_ms_project.Io.{BlockIo}
use uol_ms_project.Io.AlignedBuf.{AlignedBuf}
use uol_ms_project.Data.{PagedFile}
use uol_ms_project.Data.Access.{recycle}
use uol_ms_project.Data.Files.{read_aligned}
use uol_ms_project.Data.Stage.{stage}

pub record DataFile : Type 0 where
  pub paged_file : PagedFile
  pub with_bucket : Bool
  pub integrity : Bool

abbrev pub record_header_len : DataFile → ℕ
record_header_len file = header_len file.with_bucket

-- The tests of `parse` behind the decoding of the header; a payload range outside the buffer is an
-- index panic.
unfoldable pub check_record :
    Bool → Bool → Bytes → ℕ → ℕ → ℕ → Option RecordHeader → Result (RecordHeader × Bytes)
check_record with_bucket integrity buffer total_len expect_id offset none =
    err (corrupt record_header offset)
check_record with_bucket integrity buffer total_len expect_id offset (some header) =
    let header_size = header_len with_bucket in
    let payload_end = add64 header_size header.len in
    let payload = slice header_size payload_end buffer in
    if not (header.id == expect_id) || not (add64 header.len header_size == total_len)
    then err (corrupt record_identity offset)
    else if ltb payload_end header_size || ltb (length buffer) payload_end
    then err panic
    else if integrity && not (crc32c payload == header.crc)
    then err (corrupt record_payload offset)
    else ok (header, payload)

-- `DataFile::parse`: the header at `buffer_offset`, and the payload that goes to `out`.
unfoldable pub parse : Bool → Bool → Bytes → ℕ → ℕ → ℕ → ℕ → Result (RecordHeader × Bytes)
unfolding check_record
parse with_bucket integrity buffer buffer_offset total_len expect_id offset =
    let record_bytes = drop buffer_offset buffer in
    check_record with_bucket integrity record_bytes total_len expect_id offset
      (RecordHeader.decode record_bytes with_bucket)

-- The header that `stage_record` writes before a payload.
abbrev pub record_header_of : Bool → ℕ → ℕ → ℕ → Bytes → RecordHeader
record_header_of integrity bucket id version payload = record {
  len = length payload;
  bucket = bucket;
  id = id;
  version = version;
  crc = if integrity then crc32c payload else 0;
}

-- `header_buffer[..header_size]` after the header was encoded into it.
unfoldable pub header_bytes : Bool → RecordHeader → Bytes
header_bytes with_bucket header =
    RecordHeader.encode header with_bucket (replicate (header_len with_bucket) 0)

-- The test of `read_header` on a decoded header.
abbrev pub check_header : ℕ → ℕ → Option RecordHeader → Result RecordHeader
check_header off expect_id none = err (corrupt record_header off)
check_header off expect_id (some header) =
    if not (header.id == expect_id) then err (corrupt record_identity off) else ok header

module _ (io : BlockIo) where
  open io use {Io}

  -- A method of the paged file.
  abbrev pub on_paged : {A : Type 0} → Exec (PagedFile × Io) A → Exec (DataFile × Io) A
  on_paged method s =
      let r = method (s.0.paged_file, s.1) in (r.0, (record s.0 { paged_file = r.1.0 }, r.1.1))

  unfoldable pub stage_record : ℕ → ℕ → ℕ → ℕ → Bytes → Exec (DataFile × Io) (Unit {0})
  stage_record off bucket id version payload = do
    with_bucket ← gets (λ s. s.0.with_bucket)
    integrity ← gets (λ s. s.0.integrity)
    let header = header_bytes with_bucket (record_header_of integrity bucket id version payload)
    on_paged (stage io off (header ∷ payload ∷ []))

  unfoldable pub read_record : ℕ → ℕ → ℕ → Exec (DataFile × Io) (RecordHeader × Bytes)
  read_record off total_len expect_id = do
    found ← on_paged (read_aligned io off total_len)
    with_bucket ← gets (λ s. s.0.with_bucket)
    integrity ← gets (λ s. s.0.integrity)
    on_paged (modify (λ s. (recycle found.0 s.0, s.1)))
    lift (parse with_bucket integrity found.0.content found.1 total_len expect_id off)

  unfoldable pub read_header : ℕ → ℕ → Exec (DataFile × Io) RecordHeader
  read_header off expect_id = do
    with_bucket ← gets (λ s. s.0.with_bucket)
    found ← on_paged (read_aligned io off (header_len with_bucket))
    on_paged (modify (λ s. (recycle found.0 s.0, s.1)))
    lift (
        check_header off expect_id (RecordHeader.decode (drop found.1 found.0.content) with_bucket))
