-- ===== src/Data/Flush.antt =====
-- `PagedFile::flush` of src/data.rs.
pub mod Geometry
pub mod Pages
pub mod Finish
pub mod Writes
use uol_ms_project.Prelude.{
  ℕ, ◌+◌, ◌-◌, ◌%◌, Bool, ◌&&◌, not, Option, none, some, List, [], ◌∷◌, length, map, drop, slice,
  ◌==◌, leb, ltb, if◌then◌else◌, sub64,
}
use uol_ms_project.Prelude.Exec.{Exec, pure, gets, modify, ◌>>=◌, ◌>>◌}
use uol_ms_project.Bytes.{Bytes, put_at}
use uol_ms_project.Format.{page_size, page_down, page_up}
use uol_ms_project.Io.{BlockIo, ReadReq, WriteReq}
use uol_ms_project.Io.AlignedBuf
use uol_ms_project.Io.AlignedBuf.{AlignedBuf}
use uol_ms_project.Data.{StagedWrite, base, end_of, PagedFile, insert_page}
use uol_ms_project.Data.Access.{on_io, on_file, first_buffer, recycle}

-- `for page in (from..to).step_by(PAGE) { tail_pages.remove(&page) }`
abbrev pub remove_pages : ℕ → ℕ → (ℕ → Option Bytes) → ℕ → Option Bytes
remove_pages from to pages k =
    if leb from k && ltb k to && (k - from) % page_size == 0 then none else pages k

-- The buffer grown to whole pages, zeroed behind the staged bytes.
abbrev pub grown : StagedWrite → AlignedBuf
grown w = AlignedBuf.resize_zeroed (sub64 (page_up (end_of w)) (base w)) w.buffer

-- `(end - last) as usize`
abbrev pub within : StagedWrite → ℕ
within w = sub64 (end_of w) (page_down (end_of w))

-- The last page of a staged write takes the bytes behind its end from `page`.
abbrev pub with_suffix : StagedWrite → Bytes → AlignedBuf → AlignedBuf
with_suffix w page buffer =
    let last = page_down (end_of w) in
    record buffer {
      content = put_at (sub64 last (base w) + within w) (drop (within w) page) buffer.content;
    }

-- The page of `buffer` at the offset of the last page of `w`.
abbrev pub last_page : StagedWrite → AlignedBuf → Bytes
last_page w buffer =
    let at = sub64 (page_down (end_of w)) (base w) in slice at (at + page_size) buffer.content

abbrev pub request : StagedWrite → WriteReq
request w = record { off = base w; buf = w.buffer.content }

abbrev pub recycle_all : List StagedWrite → PagedFile → PagedFile
recycle_all [] paged = paged
recycle_all (w ∷ ws) paged = recycle_all ws (recycle w.buffer paged)

module _ (io : BlockIo) where
  open io use {Io, read_vec, write_vec}

  -- A page from the cache of tail pages, or else from the file.
  unfoldable pub cached_page : ℕ → Option Bytes → Exec (PagedFile × Io) Bytes
  cached_page off (some page) = pure page
  cached_page off none = do
    pages ← on_io io (λ file. read_vec file (record { off = off; len = page_size } ∷ []))
    pure (first_buffer pages)

  -- The page that fills up a staged write which ends inside a page: its own head, if it began in
  -- that page, or else the cache or the file.
  unfoldable pub suffix_page : StagedWrite → Option Bytes → Exec (PagedFile × Io) Bytes
  unfolding cached_page
  suffix_page w (some page) = if page_down (end_of w) == base w then pure page else do
    cached ← gets (λ s. s.0.tail_pages (page_down (end_of w)))
    cached_page (page_down (end_of w)) cached
  suffix_page w none = do
    cached ← gets (λ s. s.0.tail_pages (page_down (end_of w)))
    cached_page (page_down (end_of w)) cached

  -- The body of the loop over the staged writes: a staged write with its last page filled up.
  unfoldable pub finish : StagedWrite → Exec (PagedFile × Io) StagedWrite
  unfolding suffix_page
  finish w =
      if end_of w % page_size == 0
      then (do
        modify (λ s. (
          record s.0 { tail_pages = remove_pages (base w) (page_up (end_of w)) s.0.tail_pages },
          s.1,
        ))
        pure (record w { buffer = grown w }))
      else (do
        page ← suffix_page w w.head
        let buffer = with_suffix w page (grown w)
        modify (λ s. (
          record s.0 {
            tail_pages =
                insert_page (page_down (end_of w)) (last_page w buffer)
                  (remove_pages (base w) (page_up (end_of w)) s.0.tail_pages);
          },
          s.1,
        ))
        pure (record w { buffer = buffer }))

  unfoldable pub finish_all : List StagedWrite → Exec (PagedFile × Io) (List StagedWrite)
  unfolding finish
  finish_all [] = pure []
  finish_all (w ∷ ws) = do done ← finish w; rest ← finish_all ws; pure (done ∷ rest)

  -- `staged_writes` is taken before the first read, and `pending_bytes` is reset after the last
  -- write.
  unfoldable pub flush : Exec (PagedFile × Io) (Unit {0})
  unfolding finish_all
  flush = do
    staged ← gets (λ s. s.0.staged_writes)
    if length staged == 0 then pure tt else do
      modify (λ s. (record s.0 { staged_writes = [] }, s.1))
      finished ← finish_all staged
      on_file io (write_vec (map request finished))
      modify (λ s. (recycle_all finished (record s.0 { pending_bytes = 0 }), s.1))
