-- ===== src/Format/FileHeader/RoundTrip.antt =====
-- A file header is read back as it was written.
use uol_ms_project.Prelude.{
  le→ltb, drop, length, ◌≤◌, ◌≡◌, refl, some, [], ◌∷◌, ◌++◌, ==_refl, arith,
}
use uol_ms_project.Bytes.{Bytes, IsByte, to_le, from_le}
use uol_ms_project.Bytes.Words.{from_le-to_le}
use uol_ms_project.Crc32.{crc32c}
use uol_ms_project.Crc32.Slicing.{crc32c-IsU32}
use uol_ms_project.Format.FileHeader.{FileHeader, magic, encode, decode, header_page}
use uol_ms_project.Format.{page_size}
use uol_ms_project.Error.{ok}

-- The bytes under the checksum.
abbrev pub body : FileHeader → Bytes
body header = magic ++ (header.kind ∷ header.layout ∷ 0 ∷ 0 ∷ [])

-- A header whose kind and layout are bytes is written to a slice of a page at least, whatever it
-- held before, without a panic; the slice then starts with the header, which is read back, and what
-- lies behind the first page is as it was.
pub decode-encode_file_header :
    (header : FileHeader) (page : Bytes)
    → IsByte header.kind
    → IsByte header.layout
    → page_size ≤ length page
    → (encode header page ≡ ok (header_page header page))
      × (decode (header_page header page) ≡ some header)
      × (drop page_size (header_page header page) ≡ drop page_size page)
unfolding encode decode header_page
decode-encode_file_header header page hk hl room =
    let sum : from_le (to_le 4 (crc32c (body header))) ≡ crc32c (body header) =
      from_le-to_le 4 (crc32c (body header)) (crc32c-IsU32 (body header) (omega arith)) in
    (rw (le→ltb _ _ room) refl, rw (sum, ==_refl (crc32c (body header))) refl, refl)
