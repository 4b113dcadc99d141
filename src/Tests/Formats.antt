-- ===== src/Tests/Formats.antt =====
-- The theorems on the on-disk structures at concrete records, slots, rows and offsets, and on random
-- numbers.
use uol_ms_project.Prelude.{
  ℕ, length-replicate, ◌<◌, ◌*◌, ◌%◌, ◌≤◌, ◌≡◌, refl, sym, ap, ◌∙◌, true, none, some, drop, All, [],
  ◌∷◌, ◌++◌, bit_or, take, replicate, arith,
}
use uol_ms_project.Bytes.{Bytes, IsByte, to_le}
use uol_ms_project.Bytes.Words.{All-append, All-drop, to_le-IsByte}
use uol_ms_project.Format.{page_size, page_down, page_up}
use uol_ms_project.Format.Pages.{pages_enclose}
use uol_ms_project.Format.RecordHeader
use uol_ms_project.Format.RecordHeader.{RecordHeader, header_len}
use uol_ms_project.Format.RecordHeader.RoundTrip.{
  IsHeader, body, body-IsByte, image, decode-image, decode-encode_header,
}
use uol_ms_project.Format.RecordHeader.Accepts.{decode-Accepts}
use uol_ms_project.Format.RecordHeader.Corruption.{decode-detects_byte}
use uol_ms_project.Format.RegistryRow
use uol_ms_project.Format.RegistryRow.{RegistryRow}
use uol_ms_project.Format.RegistryRow.RoundTrip.{IsRow, decode-encode_row}
use uol_ms_project.Format.FileHeader
use uol_ms_project.Format.FileHeader.{FileHeader}
use uol_ms_project.Format.FileHeader.RoundTrip.{decode-encode_file_header}
use uol_ms_project.Rng.{below, below-lt}
use uol_ms_project.Format.Slot
use uol_ms_project.Format.Slot.{Slot, live, deleted, tombstone_bit}
use uol_ms_project.Format.Slot.RoundTrip.{IsSlot, state-encode}
use uol_ms_project.Error.{ok}

abbrev header : RecordHeader
header = record { len = 5; bucket = 3; id = 77; version = 1; crc = 0x12345678 }

header-IsHeader : IsHeader header
header-IsHeader = record {
  len = omega arith;
  bucket = omega arith;
  id = omega arith;
  version = omega arith;
  crc = omega arith;
}

decode-encode_header_example :
    RecordHeader.decode (RecordHeader.encode header true (replicate 38 0)) true ≡ some header
decode-encode_header_example =
    decode-encode_header header true (replicate 38 0) header-IsHeader (omega arith)

abbrev header_bytes : Bytes
header_bytes = image header true ++ 1 ∷ []

header_bytes-IsByte : All IsByte header_bytes
header_bytes-IsByte =
    All-append IsByte (image header true) (1 ∷ [])
      (All-append IsByte (body header true) _ (body-IsByte header true) (to_le-IsByte 4 _))
      (omega arith)

decode-Accepts_example :
    take 38 header_bytes ≡ take 38 (RecordHeader.encode header true (replicate 40 5))
decode-Accepts_example =
    decode-Accepts header true header_bytes (replicate 40 5) header_bytes-IsByte
      (decode-image header true (1 ∷ []) header-IsHeader) (omega arith)

-- The first byte of the magic number, another one.
first_byte : header_bytes ≡ 0x52 ∷ drop 1 header_bytes
unfolding to_le
first_byte = refl

rest-IsByte : All IsByte (drop 1 header_bytes)
rest-IsByte = All-drop IsByte 1 header_bytes header_bytes-IsByte

decode-detects_byte_example : RecordHeader.decode (0x53 ∷ drop 1 header_bytes) true ≡ none
decode-detects_byte_example =
    decode-detects_byte [] (drop 1 header_bytes) 0x52 0x53 true header (omega arith, rest-IsByte)
      (omega arith, rest-IsByte) (omega arith) (omega arith)
      (ap (λ t. RecordHeader.decode t true) (sym first_byte)
        ∙ decode-image header true (1 ∷ []) header-IsHeader)

abbrev row : RegistryRow
row = record { kind = b'G'; bucket = 2; start = 8192; size = 4096 }

row-IsRow : IsRow row
row-IsRow = record {
  kind = omega arith;
  bucket = omega arith;
  start = omega arith;
  size = omega arith;
}

decode-encode_row_example : RegistryRow.decode (RegistryRow.encode row (replicate 64 1)) ≡ some row
decode-encode_row_example = decode-encode_row row (replicate 64 1) row-IsRow (omega arith)

abbrev file_header : FileHeader
file_header = record { kind = b'D'; layout = 1 }

-- A page that was used before.
abbrev used_page : Bytes
used_page = replicate page_size 7

decode-encode_file_header_example :
    (FileHeader.encode file_header used_page ≡ ok (FileHeader.header_page file_header used_page))
    × (FileHeader.decode (FileHeader.header_page file_header used_page) ≡ some file_header)
    × (drop page_size (FileHeader.header_page file_header used_page) ≡ drop page_size used_page)
decode-encode_file_header_example =
    decode-encode_file_header file_header used_page (omega arith) (omega arith)
      (omega (arith, length-replicate {A = ℕ} page_size 7))

abbrev slot : Slot
slot = record { offset = 4096; total_len = 43 }

slot-IsSlot : IsSlot slot
slot-IsSlot = record { some_offset = omega arith; no_bit = omega arith; total_len = omega arith }

state-encode_example :
    (Slot.state (Slot.encode slot (replicate 16 9)) ≡ live slot)
    × (Slot.state
          (Slot.encode (record slot { offset = bit_or slot.offset tombstone_bit }) (replicate 16 9))
        ≡ deleted slot)
state-encode_example = state-encode slot (replicate 16 9) slot-IsSlot (omega arith)

pages_enclose_example :
    (page_down 5000 % page_size ≡ 0)
    × (page_up 5000 % page_size ≡ 0)
    × (page_down 5000 ≤ 5000)
    × (5000 ≤ page_up 5000)
    × (1 * page_size ≤ 5000 → 1 * page_size ≤ page_down 5000)
    × (5000 ≤ 1 * page_size → page_up 5000 ≤ 1 * page_size)
pages_enclose_example = pages_enclose 5000 1 (omega arith)

below-lt_example : (below 10 42).0 < 10
below-lt_example = below-lt 10 42 (omega arith)
