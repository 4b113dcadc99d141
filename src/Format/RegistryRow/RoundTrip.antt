-- ===== src/Format/RegistryRow/RoundTrip.antt =====
-- A registry row is read back as it was written, from a buffer of any earlier content.
use uol_ms_project.Prelude.{
  ◌≤◌, ◌≡◌, refl, ap, ◌∙◌, some, ◌∷◌, ◌++◌, All, length, drop, ==_refl, replicate, arith,
}
use uol_ms_project.Bytes.{Bytes, IsByte, IsU64, to_le, from_le, put_at}
use uol_ms_project.Bytes.Words.{from_le-to_le}
use uol_ms_project.Crc32.{crc32c}
use uol_ms_project.Crc32.Slicing.{crc32c-IsU32}
use uol_ms_project.Format.{registry_magic, registry_row_size}
use uol_ms_project.Format.RegistryRow.{RegistryRow, encode, decode}

pub record IsRow (row : RegistryRow) : Type 0 where
  pub kind : IsByte row.kind
  pub bucket : IsU64 row.bucket
  pub start : IsU64 row.start
  pub size : IsU64 row.size

-- The bytes of a row before its checksum; three bytes behind the kind stay 0.
abbrev pub body : RegistryRow → Bytes
body row =
    to_le 4 registry_magic
    ++ (row.kind ∷ 0 ∷ 0 ∷ 0 ∷ (to_le 8 row.bucket ++ (to_le 8 row.start ++ to_le 8 row.size)))

abbrev pub image : RegistryRow → Bytes
image row = body row ++ (to_le 4 (crc32c (body row)) ++ replicate 28 0)

-- The row is written over a whole chunk, so nothing of the earlier content is left in it.
pub encode-eq-image :
    (row : RegistryRow) (out : Bytes)
    → registry_row_size ≤ length out
    → encode row out ≡ image row ++ drop registry_row_size out
unfolding encode to_le put_at
encode-eq-image row out fits = refl

body-IsByte : (row : RegistryRow) → IsRow row → All IsByte (body row)
unfolding to_le
body-IsByte row v = omega arith

pub decode-image :
    (row : RegistryRow) (rest : Bytes) → IsRow row → decode (image row ++ rest) ≡ some row
unfolding decode to_le
decode-image row rest v =
    let sum : from_le (to_le 4 (crc32c (body row))) ≡ crc32c (body row) =
      from_le-to_le 4 (crc32c (body row)) (crc32c-IsU32 (body row) (body-IsByte row v)) in
    let magic : from_le (to_le 4 registry_magic) ≡ registry_magic =
      from_le-to_le 4 registry_magic (omega arith) in
    rw
      (
        sum,
        ==_refl (crc32c (body row)),
        magic,
        from_le-to_le 8 row.bucket v.bucket,
        from_le-to_le 8 row.start v.start,
        from_le-to_le 8 row.size v.size,
      )
      refl

-- A row that is encoded into a buffer with room for it is read back.
pub decode-encode_row :
    (row : RegistryRow) (out : Bytes)
    → IsRow row
    → registry_row_size ≤ length out
    → decode (encode row out) ≡ some row
decode-encode_row row out v fits =
    ap decode (encode-eq-image row out fits) ∙ decode-image row (drop registry_row_size out) v
