-- ===== src/Format/FileHeader.antt =====
-- `FileHeader` of src/format.rs: the first page of each file.
pub mod RoundTrip
use uol_ms_project.Prelude.{
  length, ltb, ℕ, Bool, false, ◌&&◌, not, Option, none, some, List, [], ◌∷◌, ◌++◌, ◌==◌,
  if◌then◌else◌, take, drop, slice, replicate, get_or,
}
use uol_ms_project.Error.{Result, ok, err, panic}
use uol_ms_project.Bytes.{Bytes, to_le, from_le, put_at}
use uol_ms_project.Crc32.{crc32c}
use uol_ms_project.Format.{page_size}

pub record FileHeader : Type 0 where
  pub kind : ℕ
  pub layout : ℕ

-- `b"HSF1"`
abbrev pub magic : Bytes
magic = b'H' ∷ b'S' ∷ b'F' ∷ b'1' ∷ []

abbrev pub is_magic : Bytes → Bool
is_magic (a ∷ b ∷ c ∷ d ∷ []) = a == b'H' && b == b'S' && c == b'F' && d == b'1'
is_magic bytes = false

-- A page of zeros with the fields of the header, in front of what lies behind the first page.
unfoldable pub header_page : FileHeader → Bytes → Bytes
unfolding to_le put_at
header_page header page =
    let zeroed = replicate page_size 0 ++ drop page_size page in
    let tagged = put_at 0 magic zeroed in
    let kinded = put_at 4 (header.kind ∷ []) tagged in
    let filled = put_at 5 (header.layout ∷ []) kinded in
    put_at 8 (to_le 4 (crc32c (take 8 filled))) filled

-- `page[..PAGE]` panics where the slice is shorter than a page.
unfoldable pub encode : FileHeader → Bytes → Result Bytes
unfolding header_page
encode header page = if ltb (length page) page_size then err panic else ok (header_page header page)

unfoldable pub decode : Bytes → Option FileHeader
decode page =
    if not (is_magic (take 4 page))
    then none
    else if not (from_le (slice 8 12 page) == crc32c (take 8 page))
    then none
    else some (record { kind = get_or page 4 0; layout = get_or page 5 0 })
