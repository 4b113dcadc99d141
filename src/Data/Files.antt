-- ===== src/Data/Files.antt =====
-- The other methods of `PagedFile` in src/data.rs: creation, opening, allocation, the buffer pool
-- and aligned reads.
use uol_ms_project.Prelude.{
  ℕ, max, Bool, false, ◌&&◌, Option, none, some, [], ◌∷◌, length, replicate, ◌==◌, leb,
  if◌then◌else◌, add64, sub64,
}
use uol_ms_project.Prelude.Exec.{lift, Exec, pure, raise, gets, modify, ◌>>=◌, ◌>>◌}
use uol_ms_project.Error.{corrupt, file_header}
use uol_ms_project.Format.{page_size, page_down, page_up}
use uol_ms_project.Format.FileHeader
use uol_ms_project.Format.FileHeader.{FileHeader}
use uol_ms_project.Io.{BlockIo, File, truncated}
use uol_ms_project.Io.AlignedBuf.{AlignedBuf}
use uol_ms_project.Data.{PagedFile}
use uol_ms_project.Data.Access.{on_io, on_file, first_buffer, take_sized}
use uol_ms_project.Data.Flush.{flush}

abbrev pub fresh : File → PagedFile
fresh file = record {
  file = file;
  tail_pages = λ k. none;
  pool = [];
  staged_writes = [];
  pending_bytes = 0;
  allocated_end = 0;
}

-- The test at the end of `PagedFile::open`.
abbrev pub header_matches : Option FileHeader → ℕ → ℕ → Bool
header_matches none kind layout = false
header_matches (some header) kind layout = header.kind == kind && header.layout == layout

abbrev pub note_alloc : ℕ → PagedFile → PagedFile
note_alloc upto paged = record paged { allocated_end = max paged.allocated_end upto }

module _ (io : BlockIo) where
  open io use {Io, read_vec, write_vec, sync, fallocate, file_len}

  -- The body of `PagedFile::create`, on the paged file that it builds.
  initialize : ℕ → ℕ → Exec (PagedFile × Io) PagedFile
  initialize kind layout = do
    page ←
        lift (FileHeader.encode (record { kind = kind; layout = layout }) (replicate page_size 0))
    on_file io (write_vec (record { off = 0; buf = page } ∷ []))
    on_io io sync
    modify (λ s. (record s.0 { allocated_end = page_size }, s.1))
    gets (λ s. s.0)

  -- `PagedFile::create`, after `open_direct` gave `file`.
  unfoldable pub create : File → ℕ → ℕ → Exec Io PagedFile
  unfolding initialize
  create file kind layout s =
      let r = initialize kind layout (fresh (truncated file), s) in (r.0, r.1.1)

  -- `PagedFile::open`, after `open_direct` gave `file`.
  unfoldable pub open_file : File → ℕ → ℕ → Exec Io PagedFile
  open_file file kind layout = do
    pages ← read_vec file (record { off = 0; len = page_size } ∷ [])
    if header_matches (FileHeader.decode (first_buffer pages)) kind layout
        then pure (fresh file)
        else raise (corrupt file_header 0)

  unfoldable pub size : Exec (PagedFile × Io) ℕ
  size = on_io io file_len

  unfoldable pub ensure_alloc : ℕ → ℕ → Exec (PagedFile × Io) (Unit {0})
  ensure_alloc upto chunk = do
    allocated_end ← gets (λ s. s.0.allocated_end)
    let new_end = page_up (max upto (add64 allocated_end chunk))
    if leb upto allocated_end then pure tt else do
      on_file io (fallocate allocated_end (sub64 new_end allocated_end))
      modify (λ s. (record s.0 { allocated_end = new_end }, s.1))

  unfoldable pub read_aligned : ℕ → ℕ → Exec (PagedFile × Io) (AlignedBuf × ℕ)
  read_aligned off len = do
    flush io
    let start = page_down off
    buffer ← take_sized (sub64 (page_up (add64 off len)) start)
    pages ←
        on_io io (λ file. read_vec file (record { off = start; len = length buffer.content } ∷ []))
    pure (record buffer { content = first_buffer pages }, sub64 off start)
