-- ===== src/Data/Stage.antt =====
-- `PagedFile::stage` of src/data.rs.
pub mod Parts
pub mod Neighbours
pub mod Open
pub mod Fresh
pub mod Push
pub mod Writes
use uol_ms_project.Prelude.{
  ℕ, zero, suc, ◌+◌, ◌-◌, ◌%◌, Bool, true, false, ◌&&◌, ◌||◌, not, Option, none, some, List, [],
  ◌∷◌, ◌++◌, length, take, ◌==◌, leb, ltb, if◌then◌else◌, add64, sub64,
}
use uol_ms_project.Prelude.Exec.{Exec, pure, gets, modify, ◌>>=◌, ◌>>◌}
use uol_ms_project.Bytes.{Bytes}
use uol_ms_project.Format.{page_size, page_down, page_up}
use uol_ms_project.Io.{BlockIo}
use uol_ms_project.Io.AlignedBuf
use uol_ms_project.Io.AlignedBuf.{AlignedBuf}
use uol_ms_project.Data.{StagedWrite, base, end_of, PagedFile, max_staged_writes}
use uol_ms_project.Data.Access.{take_buffer}
use uol_ms_project.Data.Flush.{flush, cached_page}

-- The bytes of all parts; `len` is their number.
abbrev pub joined : List Bytes → Bytes
joined [] = []
joined (part ∷ parts) = part ++ joined parts

-- `for part in parts { buffer.extend_from_slice(part) }`
abbrev pub extend_parts : List Bytes → AlignedBuf → AlignedBuf
extend_parts [] buffer = buffer
extend_parts (part ∷ parts) buffer = extend_parts parts (AlignedBuf.extend_from_slice part buffer)

-- The pages of `w`, up to the end of its last one, meet those from `from` to `to`.
abbrev pub overlaps : ℕ → ℕ → StagedWrite → Bool
overlaps from to w = ltb (base w) to && ltb from (page_up (end_of w))

abbrev pub any_overlap : ℕ → ℕ → List StagedWrite → Bool
any_overlap from to [] = false
any_overlap from to (w ∷ ws) = overlaps from to w || any_overlap from to ws

-- The staged writes before and behind the first that ends at `off`: `position`, with the two sides
-- that its index tells apart.
abbrev pub Split : Type 0
Split = record { before : List StagedWrite; at : StagedWrite; behind : List StagedWrite }

pub prepend : StagedWrite → Option Split → Option Split
prepend w none = none
prepend w (some s) = some (record { before = w ∷ s.before; at = s.at; behind = s.behind })

unfoldable pub ending_at : ℕ → List StagedWrite → Option Split
unfolding prepend
ending_at off [] = none
ending_at off (w ∷ ws) =
    if end_of w == off
    then some (record { before = []; at = w; behind = ws })
    else prepend w (ending_at off ws)

-- The open staged write with the parts behind it.
abbrev pub extended : List Bytes → Split → List StagedWrite
extended parts s = s.before ++ record s.at { buffer = extend_parts parts s.at.buffer } ∷ s.behind

-- The others overlap the pages of the open staged write with the parts behind it.
abbrev pub blocked : ℕ → Split → Bool
blocked new_end s =
    any_overlap (base s.at) new_end s.before || any_overlap (base s.at) new_end s.behind

-- `page[..pad]`
abbrev pub head_bytes : Option Bytes → ℕ → Bytes
head_bytes none pad = []
head_bytes (some page) pad = take pad page

module _ (io : BlockIo) where
  open io use {Io, read_vec}

  -- The head of a new staged write that begins inside a page.
  unfoldable pub head_of : ℕ → ℕ → Exec (PagedFile × Io) (Option Bytes)
  head_of head_page pad =
      if ltb 0 pad
      then (do
        cached ← gets (λ s. s.0.tail_pages head_page)
        page ← cached_page io head_page cached
        pure (some page))
      else pure none

  unfoldable pub flush_if : Bool → Exec (PagedFile × Io) (Unit {0})
  flush_if test = if test then flush io else pure tt

  -- A new staged write, behind the flushes that make room for it.
  unfoldable pub stage_new : ℕ → List Bytes → Exec (PagedFile × Io) (Unit {0})
  unfolding head_of flush_if
  stage_new off parts = do
    let len = length (joined parts)
    let head_page = page_down off
    let new_end = page_up (add64 off len)
    full ← gets (λ s. leb max_staged_writes (length s.0.staged_writes))
    flush_if full
    meets ← gets (λ s. any_overlap head_page new_end s.0.staged_writes)
    flush_if meets
    buffer ← take_buffer
    head ← head_of head_page (sub64 off head_page)
    let filled =
        extend_parts parts
          (AlignedBuf.extend_from_slice (head_bytes head (sub64 off head_page)) buffer)
    modify (λ s. (
      record s.0 {
        pending_bytes = add64 s.0.pending_bytes len;
        staged_writes =
            s.0.staged_writes ++ record { start = off; buffer = filled; head = head } ∷ [];
      },
      s.1,
    ))

  -- The choice between the open staged write that ends at `off` and a new one.
  unfoldable pub stage_at : ℕ → List Bytes → Option Split → Exec (PagedFile × Io) (Unit {0})
  unfolding stage_new
  stage_at off parts none = stage_new off parts
  stage_at off parts (some s) =
      if blocked (page_up (add64 off (length (joined parts)))) s
      then stage_new off parts
      else modify (λ t. (
        record t.0 {
          staged_writes = extended parts s;
          pending_bytes = add64 t.0.pending_bytes (length (joined parts));
        },
        t.1,
      ))

  unfoldable pub stage : ℕ → List Bytes → Exec (PagedFile × Io) (Unit {0})
  unfolding stage_at ending_at
  stage off parts = do found ← gets (λ s. ending_at off s.0.staged_writes); stage_at off parts found
