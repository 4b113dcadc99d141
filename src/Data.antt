-- ===== src/Data.antt =====
-- `StagedWrite` and `PagedFile` of src/data.rs: a file that is read and written by whole pages,
-- with writes staged in memory until a flush. The operations are in the children.
pub mod Access
pub mod View
pub mod Flush
pub mod Stage
pub mod Files
pub mod Reads
pub mod Allocation
use uol_ms_project.Prelude.{
  ℕ, ◌+◌, ◌*◌, ◌^◌, Bool, ◌&&◌, not, Option, none, some, List, [], ◌∷◌, length, ◌==◌, leb, ltb,
  if◌then◌else◌, add64,
}
use uol_ms_project.Bytes.{Bytes}
use uol_ms_project.Format.{page_down}
use uol_ms_project.Io.{File}
use uol_ms_project.Io.AlignedBuf.{AlignedBuf}

abbrev pub max_staged_writes : ℕ
max_staged_writes = 64

abbrev pub max_pooled_buffers : ℕ
max_pooled_buffers = 16

abbrev pub max_pooled_buffer_capacity : ℕ
max_pooled_buffer_capacity = 8 * 2 ^ 20

pub record StagedWrite : Type 0 where
  pub start : ℕ
  pub buffer : AlignedBuf
  pub head : Option Bytes

abbrev pub base : StagedWrite → ℕ
base w = page_down w.start

abbrev pub end_of : StagedWrite → ℕ
end_of w = add64 (base w) (length w.buffer.content)

-- `tail_pages` is a hash map from a page's offset to its bytes; only lookups, insertions and
-- removals are made, so it is a function.
pub record PagedFile : Type 0 where
  pub file : File
  pub tail_pages : ℕ → Option Bytes
  pub pool : List AlignedBuf
  pub staged_writes : List StagedWrite
  pub pending_bytes : ℕ
  pub allocated_end : ℕ

abbrev pub has_pending : PagedFile → Bool
has_pending paged = not (length paged.staged_writes == 0)

-- `tail_pages.insert(key, page)`
abbrev pub insert_page : ℕ → Bytes → (ℕ → Option Bytes) → ℕ → Option Bytes
insert_page key page pages k = if k == key then some page else pages k
