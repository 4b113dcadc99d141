-- ===== src/Data/Access.antt =====
-- How a paged file reaches its file and its buffer pool: `take_buffer`, `take_sized` and `recycle`
-- of src/data.rs. The state of a method is the paged file beside the I/O backend.
use uol_ms_project.Prelude.{
  ◌^◌, ◌<◌, ◌+◌, ℕ, ◌&&◌, List, [], ◌∷◌, length, leb, ltb, if◌then◌else◌, ◌≡◌, refl, ap,
}
use uol_ms_project.Prelude.Exec.{Exec, Returns, Returns-weaken, pure, ◌>>=◌}
use uol_ms_project.Error.{ok}
use uol_ms_project.Bytes.{Bytes}
use uol_ms_project.Io.{BlockIo, File, IsFile, IsReliable, ReadReq, read_cells}
use uol_ms_project.Io.AlignedBuf
use uol_ms_project.Io.AlignedBuf.{AlignedBuf}
use uol_ms_project.Data.{PagedFile, max_pooled_buffers, max_pooled_buffer_capacity}

-- The only buffer of a request of one.
abbrev pub first_buffer : List Bytes → Bytes
first_buffer [] = []
first_buffer (buffer ∷ rest) = buffer

-- `pool.pop()`; the pool is a stack, its top first.
abbrev pub popped : List AlignedBuf → AlignedBuf
popped [] = AlignedBuf.zeroed 0
popped (top ∷ rest) = top

abbrev pub rest_of : List AlignedBuf → List AlignedBuf
rest_of [] = []
rest_of (top ∷ rest) = rest

module _ {Io : Type 0} where
  unfoldable pub take_buffer : Exec (PagedFile × Io) AlignedBuf
  take_buffer s =
      (ok (AlignedBuf.clear (popped s.0.pool)), (record s.0 { pool = rest_of s.0.pool }, s.1))

  unfoldable pub take_sized : ℕ → Exec (PagedFile × Io) AlignedBuf
  unfolding take_buffer
  take_sized len = do buffer ← take_buffer; pure (AlignedBuf.resize_zeroed len buffer)

unfoldable pub recycle : AlignedBuf → PagedFile → PagedFile
recycle buffer paged =
    if ltb (length paged.pool) max_pooled_buffers && leb buffer.capacity max_pooled_buffer_capacity
    then record paged { pool = buffer ∷ paged.pool }
    else paged

module _ (io : BlockIo) where
  -- A method of the backend on the file of the paged file.
  abbrev pub on_io :
      {A : Type 0} → (File → Exec (BlockIo.Io io) A) → Exec (PagedFile × BlockIo.Io io) A
  on_io method s = let r = method s.0.file s.1 in (r.0, (s.0, r.1))

  abbrev pub on_file :
      {A : Type 0} → Exec (File × BlockIo.Io io) A → Exec (PagedFile × BlockIo.Io io) A
  on_file method s = let r = method (s.0.file, s.1) in (r.0, (record s.0 { file = r.1.0 }, r.1.1))

  -- A result of the backend, as a result of the paged file's method.
  pub Returns-on_io :
      {A : Type 0} {P : A → BlockIo.Io io → Type 0} (method : File → Exec (BlockIo.Io io) A)
      (paged : PagedFile) (s : BlockIo.Io io)
      → Returns P (method paged.file s)
      → Returns (λ a after. P a after.1 × (after.0 ≡ paged)) (on_io method (paged, s))
  Returns-on_io method paged s h = record {
    value = h.value;
    state = (paged, h.state);
    outcome = ap (λ r. (r.0, (paged, r.1))) h.outcome;
    post = (h.post, refl);
  }

  pub Returns-on_file :
      {A : Type 0} {P : A → File × BlockIo.Io io → Type 0} (method : Exec (File × BlockIo.Io io) A)
      (paged : PagedFile) (s : BlockIo.Io io)
      → Returns P (method (paged.file, s))
      → Returns
          (λ a after.
            P a (after.0.file, after.1) × (after.0 ≡ record paged { file = after.0.file }))
          (on_file method (paged, s))
  Returns-on_file method paged s h = record {
    value = h.value;
    state = (record paged { file = h.state.0 }, h.state.1);
    outcome = ap (λ r. (r.0, (record paged { file = r.1.0 }, r.1.1))) h.outcome;
    post = (h.post, refl);
  }

module _ (io : BlockIo) (reliable : IsReliable io) where
  -- A request of one buffer is filled with the bytes of the file.
  pub read_one :
      (off len : ℕ) (paged : PagedFile) (s : BlockIo.Io io)
      → IsFile paged.file
      → off + len < 2 ^ 64
      → Returns
          (λ pages after.
            (first_buffer pages ≡ read_cells paged.file.cell off len) × (after.0 ≡ paged))
          (on_io io
            (λ file. BlockIo.read_vec io file (record { off = off; len = len } ∷ []))
            (paged, s))
  read_one off len paged s file fits =
      let requests : List ReadReq = record { off = off; len = len } ∷ [] in
      Returns-weaken (on_io io (λ f. BlockIo.read_vec io f requests) (paged, s))
        (Returns-on_io io (λ f. BlockIo.read_vec io f requests) paged s
          (reliable.reads paged.file requests s file (fits, tt)))
        (λ pages after (e, same). (ap first_buffer e, same))
