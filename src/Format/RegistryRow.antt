-- ===== src/Format/RegistryRow.antt =====
-- `RegistryRow` of src/format.rs: one grant of the bucket allocator, in 64 bytes.
pub mod RoundTrip
use uol_ms_project.Prelude.{
  ℕ, not, Option, none, some, List, [], ◌∷◌, ◌++◌, ◌==◌, if◌then◌else◌, take, drop, slice,
  replicate, get_or,
}
use uol_ms_project.Bytes.{Bytes, to_le, from_le, put_at}
use uol_ms_project.Crc32.{crc32c}
use uol_ms_project.Format.{registry_magic, registry_row_size}

pub record RegistryRow : Type 0 where
  pub kind : ℕ
  pub bucket : ℕ
  pub start : ℕ
  pub size : ℕ

unfoldable pub encode : RegistryRow → Bytes → Bytes
encode row out =
    let zeroed = replicate registry_row_size 0 ++ drop registry_row_size out in
    let tagged = put_at 0 (to_le 4 registry_magic) zeroed in
    let kinded = put_at 4 (row.kind ∷ []) tagged in
    let bucketed = put_at 8 (to_le 8 row.bucket) kinded in
    let started = put_at 16 (to_le 8 row.start) bucketed in
    let sized = put_at 24 (to_le 8 row.size) started in
    put_at 32 (to_le 4 (crc32c (take 32 sized))) sized

unfoldable pub decode : Bytes → Option RegistryRow
decode buf =
    if not (from_le (take 4 buf) == registry_magic)
    then none
    else if not (from_le (slice 32 36 buf) == crc32c (take 32 buf))
    then none
    else some (record {
      kind = get_or buf 4 0;
      bucket = from_le (slice 8 16 buf);
      start = from_le (slice 16 24 buf);
      size = from_le (slice 24 32 buf);
    })
