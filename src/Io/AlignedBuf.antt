-- ===== src/Io/AlignedBuf.antt =====
-- `AlignedBuf` of src/io/mod.rs: a growing buffer in page-aligned memory. The bytes up to its length
-- are a list; what the memory holds beyond is never read before it is zeroed or written.
use uol_ms_project.Prelude.{
  ℕ, ◌+◌, ◌-◌, ◌*◌, ◌/◌, ◌%◌, ◌≤◌, ◌≡◌, max, [], ◌++◌, length, take, replicate, leb, ltb,
  if◌then◌else◌,
}
use uol_ms_project.Bytes.{Bytes}
use uol_ms_project.Format.{page_size}

pub record AlignedBuf : Type 0 where
  pub content : Bytes
  pub capacity : ℕ

-- `need.next_multiple_of(PAGE)`
abbrev next_multiple : ℕ → ℕ
next_multiple need = (need + (page_size - 1)) / page_size * page_size

unfoldable pub reserve : ℕ → AlignedBuf → AlignedBuf
reserve need buffer =
    if leb need buffer.capacity
    then buffer
    else record buffer { capacity = max (next_multiple need) (buffer.capacity * 2) }

unfoldable pub zeroed : ℕ → AlignedBuf
unfolding reserve
zeroed len = record (reserve len (record { content = []; capacity = 0 })) {
  content = replicate len 0;
}

unfoldable pub extend_from_slice : Bytes → AlignedBuf → AlignedBuf
unfolding reserve
extend_from_slice bytes buffer = record (reserve (length buffer.content + length bytes) buffer) {
  content = buffer.content ++ bytes;
}

unfoldable pub resize_zeroed : ℕ → AlignedBuf → AlignedBuf
unfolding reserve
resize_zeroed len buffer = record (reserve len buffer) {
  content =
      if ltb (length buffer.content) len
      then buffer.content ++ replicate (len - length buffer.content) 0
      else take len buffer.content;
}

unfoldable pub clear : AlignedBuf → AlignedBuf
clear buffer = record buffer { content = [] }

-- The bytes fit the memory, and the memory is whole pages.
pub record IsBuffer (buffer : AlignedBuf) : Type 0 where
  pub fits : length buffer.content ≤ buffer.capacity
  pub whole : buffer.capacity % page_size ≡ 0
