-- ===== src/Format/RecordHeader.antt =====
-- `RecordHeader` of src/format.rs: 38 bytes before a payload where the layout has buckets, else 30.
pub mod RoundTrip
pub mod Accepts
pub mod Corruption
use uol_ms_project.Prelude.{
  ℕ, ◌+◌, ◌-◌, Bool, ◌||◌, not, Option, none, some, ◌==◌, ltb, if◌then◌else◌, take, slice, length,
}
use uol_ms_project.Bytes.{Bytes, to_le, from_le, put_at}
use uol_ms_project.Crc32.{crc32c}
use uol_ms_project.Format.{record_magic}

pub record RecordHeader : Type 0 where
  pub len : ℕ
  pub bucket : ℕ
  pub id : ℕ
  pub version : ℕ
  pub crc : ℕ

abbrev pub header_len : Bool → ℕ
header_len with_bucket = if with_bucket then 38 else 30

-- The writes behind the bucket field, from `field_offset` on.
pub encode_fields : RecordHeader → ℕ → Bytes → Bytes
encode_fields header field_offset out =
    let with_id = put_at field_offset (to_le 8 header.id) out in
    let with_version = put_at (field_offset + 8) (to_le 2 header.version) with_id in
    let with_crc = put_at (field_offset + 10) (to_le 4 header.crc) with_version in
    put_at (field_offset + 14) (to_le 4 (crc32c (take (field_offset + 14) with_crc))) with_crc

unfoldable pub encode : RecordHeader → Bool → Bytes → Bytes
unfolding encode_fields
encode header with_bucket out =
    let tagged = put_at 0 (to_le 4 record_magic) out in
    let sized = put_at 4 (to_le 8 header.len) tagged in
    if with_bucket
    then encode_fields header 20 (put_at 12 (to_le 8 header.bucket) sized)
    else encode_fields header 12 sized

-- The fields of a buffer that passed the tests.
pub decode_fields : Bytes → ℕ → ℕ → RecordHeader
decode_fields buf bucket field_offset = record {
  len = from_le (slice 4 12 buf);
  bucket = bucket;
  id = from_le (slice field_offset (field_offset + 8) buf);
  version = from_le (slice (field_offset + 8) (field_offset + 10) buf);
  crc = from_le (slice (field_offset + 10) (field_offset + 14) buf);
}

unfoldable pub decode : Bytes → Bool → Option RecordHeader
decode buf with_bucket =
    let header_size = header_len with_bucket in
    if ltb (length buf) header_size || not (from_le (take 4 buf) == record_magic)
    then none
    else if not
        (from_le (slice (header_size - 4) header_size buf) == crc32c (take (header_size - 4) buf))
    then none
    else some (
        if with_bucket
        then decode_fields buf (from_le (slice 12 20 buf)) 20
        else decode_fields buf 0 12)
