-- ===== src/Index/Batch.antt =====
-- `IndexFile::read_slots` of src/index.rs: many slots with one request for each run of adjacent
-- pages.
use uol_ms_project.Prelude.{
  ℕ, ◌+◌, Option, none, List, [], ◌∷◌, map, slice, ◌==◌, ltb, leb, if◌then◌else◌, add64, sub64,
}
use uol_ms_project.Prelude.Exec.{Exec, pure, modify, ◌>>=◌, ◌>>◌}
use uol_ms_project.Bytes.{Bytes}
use uol_ms_project.Format.{page_size, page_down, slot_size}
use uol_ms_project.Format.Slot
use uol_ms_project.Format.Slot.{Slot, file_offset}
use uol_ms_project.Io.{BlockIo, ReadReq}
use uol_ms_project.Io.AlignedBuf.{AlignedBuf}
use uol_ms_project.Data.{PagedFile}
use uol_ms_project.Data.Access.{on_io, recycle, take_sized}
use uol_ms_project.Data.Flush.{flush}

-- `sort_unstable` of numbers, and `dedup`.
pub insert : ℕ → List ℕ → List ℕ
insert a [] = a ∷ []
insert a (b ∷ bs) = if ltb b a then b ∷ insert a bs else a ∷ b ∷ bs

pub sort : List ℕ → List ℕ
unfolding insert
sort [] = []
sort (a ∷ rest) = insert a (sort rest)

-- The elements of a list that differ from the one before them.
pub dedup_after : ℕ → List ℕ → List ℕ
dedup_after last [] = []
dedup_after last (b ∷ bs) = let rest = dedup_after b bs in if b == last then rest else b ∷ rest

pub dedup : List ℕ → List ℕ
unfolding dedup_after
dedup [] = []
dedup (a ∷ rest) = a ∷ dedup_after a rest

-- A run of adjacent pages, from `start` to `stop`.
pub record Run : Type 0 where
  pub start : ℕ
  pub stop : ℕ

-- The loop over the pages; `run` is the last group so far.
pub group_pages : Run → List ℕ → List Run
group_pages run [] = run ∷ []
group_pages run (page ∷ pages) =
    let longer = group_pages (record run { stop = add64 run.stop page_size }) pages in
    let opened = group_pages (record { start = page; stop = add64 page page_size }) pages in
    if page == run.stop then longer else run ∷ opened

pub runs_of : List ℕ → List Run
unfolding group_pages
runs_of [] = []
runs_of (page ∷ pages) = group_pages (record { start = page; stop = add64 page page_size }) pages

-- The slot at `offset`, from the buffer of the first run that ends behind it: `partition_point`.
pub slot_in : ℕ → List Run → List Bytes → Option Slot
slot_in offset [] buffers = none
slot_in offset (run ∷ runs) [] = none
slot_in offset (run ∷ runs) (buffer ∷ buffers) =
    if leb run.stop offset
    then slot_in offset runs buffers
    else (let at = sub64 offset run.start in Slot.decode (slice at (at + slot_size) buffer))

module _ (io : BlockIo) where
  open io use {Io, read_vec}

  pub take_buffers : List Run → Exec (PagedFile × Io) (List AlignedBuf)
  take_buffers [] = pure []
  take_buffers (run ∷ runs) = do
    buffer ← take_sized (sub64 run.stop run.start)
    buffers ← take_buffers runs
    pure (buffer ∷ buffers)

  abbrev request : Run → ReadReq
  request run = record { off = run.start; len = sub64 run.stop run.start }

  abbrev recycle_buffers : List AlignedBuf → PagedFile → PagedFile
  recycle_buffers [] paged = paged
  recycle_buffers (buffer ∷ buffers) paged = recycle_buffers buffers (recycle buffer paged)

  unfoldable pub read_slots : List ℕ → Exec (PagedFile × Io) (List (Option Slot))
  unfolding sort dedup runs_of slot_in take_buffers
  read_slots ids = do
    flush io
    let runs = runs_of (dedup (sort (map (λ id. page_down (file_offset id)) ids)))
    buffers ← take_buffers runs
    pages ← on_io io (λ file. read_vec file (map request runs))
    modify (λ s. (recycle_buffers buffers s.0, s.1))
    pure (map (λ id. slot_in (file_offset id) runs pages) ids)
