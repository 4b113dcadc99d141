-- ===== src/Data/Reads.antt =====
-- `PagedFile::read_aligned`: what a reader finds in the buffer that it gets.
use uol_ms_project.Prelude.{
  ◌^◌, ◌<◌, ℕ, zero, suc, ◌+◌, ◌-◌, ◌≤◌, ◌≡◌, inl, inr, refl, sym, ap, subst, ◌∙◌, Bool-cases, List,
  [], ◌∷◌, length, take, drop, slice, replicate, length-append, length-take, length-replicate, ltb,
  ltb→lt, ltb→le, add64, sub64, arith,
}
use uol_ms_project.Prelude.Exec.{pure, Returns, returns, Returns-bind}
use uol_ms_project.Format.{page_size, page_down, page_up}
use uol_ms_project.Format.Pages.{page_down_lem, page_up_lem}
use uol_ms_project.Io.{BlockIo, IsReliable, read_cells}
use uol_ms_project.Io.AlignedBuf
use uol_ms_project.Io.AlignedBuf.{AlignedBuf}
use uol_ms_project.Data.{PagedFile}
use uol_ms_project.Data.View.{view, limit, IsCoherent}
use uol_ms_project.Data.Access.{on_io, first_buffer, take_buffer, take_sized, read_one}
use uol_ms_project.Data.Flush.{flush}
use uol_ms_project.Data.Flush.Writes.{Flushed, flush_lem}
use uol_ms_project.Data.Files.{read_aligned}

pub take-read_cells :
    (cell : ℕ → ℕ) (off n m : ℕ) → n ≤ m → take n (read_cells cell off m) ≡ read_cells cell off n
take-read_cells cell off zero m h = refl
take-read_cells cell off (suc n) zero h = absurd (omega arith)
take-read_cells cell off (suc n) (suc m) h =
    ap (λ t. cell off ∷ t) (take-read_cells cell (off + 1) n m (omega arith))

drop-read_cells :
    (cell : ℕ → ℕ) (off n m : ℕ)
    → n ≤ m
    → drop n (read_cells cell off m) ≡ read_cells cell (off + n) (m - n)
drop-read_cells cell off zero m h =
    let here : off + 0 ≡ off = omega arith in
    let all : m - 0 ≡ m = omega arith in rw (here, all) refl
drop-read_cells cell off (suc n) zero h = absurd (omega arith)
drop-read_cells cell off (suc n) (suc m) h =
    let here : off + suc n ≡ off + 1 + n = omega arith in
    let rest : suc m - suc n ≡ m - n = omega arith in
    rw (here, rest) (drop-read_cells cell (off + 1) n m (omega arith))

-- A part of what was read is what a read of that part gives.
pub slice-read_cells :
    (cell : ℕ → ℕ) (off n len total : ℕ)
    → n + len ≤ total
    → slice n (n + len) (read_cells cell off total) ≡ read_cells cell (off + n) len
slice-read_cells cell off n len total h =
    ap (take (n + len - n)) (drop-read_cells cell off n total (omega arith))
    ∙ take-read_cells cell (off + n) (n + len - n) (total - n) (omega arith)
    ∙ ap (read_cells cell (off + n)) (omega arith)

pub length-resize_zeroed :
    (len : ℕ) (buffer : AlignedBuf) → length (AlignedBuf.resize_zeroed len buffer).content ≡ len
unfolding AlignedBuf.resize_zeroed
length-resize_zeroed len buffer = elim (Bool-cases (ltb (length buffer.content) len)) [
  | inl more ↦ rw more (
      omega (
        arith,
        length-append buffer.content (replicate (len - length buffer.content) 0),
        length-replicate {A = ℕ} (len - length buffer.content) 0,
        ltb→lt (length buffer.content) len more,
      ))
  | inr less ↦
      rw less
        (omega (arith, length-take len buffer.content, ltb→le (length buffer.content) len less))
]

module _ {Io : Type 0} where
  -- A buffer of the asked size, at the cost of the pool alone.
  take_sized_lem :
      (len : ℕ) (paged : PagedFile) (s : Io)
      → Returns
          (λ buffer after.
            (length buffer.content ≡ len) × (after.0 ≡ record paged { pool = after.0.pool }))
          (take_sized len (paged, s))
  unfolding take_sized take_buffer
  take_sized_lem len paged s = returns _ _ (length-resize_zeroed len _, refl)

-- A flushed paged file does not depend on its pool.
Flushed-pool :
    (paged mid : PagedFile) (pool : List AlignedBuf)
    → Flushed paged mid
    → Flushed paged (record mid { pool = pool })
Flushed-pool paged mid pool f = record {
  coherent = record {
    is_file = f.coherent.is_file;
    cache = f.coherent.cache;
    staged = f.coherent.staged;
    apart = f.coherent.apart;
  };
  nothing_staged = f.nothing_staged;
  written = f.written;
  same_end = f.same_end;
}

-- The window of an aligned read covers the bytes that were asked for.
window :
    (off len : ℕ)
    → off + len + page_size ≤ limit
    → (page_down off + sub64 off (page_down off) ≡ off)
      × (sub64 off (page_down off) + len ≤ sub64 (page_up (add64 off len)) (page_down off))
window off len bound =
    let total : add64 off len ≡ off + len = omega arith in
    rw total (omega (arith, page_down_lem off (omega arith), page_up_lem (off + len) (omega arith)))

window_end :
    (off len : ℕ)
    → off + len + page_size ≤ limit
    → page_down off + sub64 (page_up (add64 off len)) (page_down off) < 2 ^ 64
window_end off len bound =
    let total : add64 off len ≡ off + len = omega arith in
    rw total (omega (arith, page_down_lem off (omega arith), page_up_lem (off + len) (omega arith)))

module _ (io : BlockIo) (reliable : IsReliable io) where
  -- An aligned read of a coherent paged file succeeds, over a reliable backend: the bytes of the
  -- buffer from the returned offset on, as many as were asked for, are those that the paged file
  -- stood for, staged or not, and the buffer begins at the start of a page. The read flushes.
  pub read_aligned_lem :
      (off len : ℕ) (paged : PagedFile) (s : BlockIo.Io io)
      → IsCoherent paged
      → off + len + page_size ≤ limit
      → Returns
          (λ r after.
            (slice r.1 (r.1 + len) r.0.content ≡ read_cells (view paged) off len)
            × Flushed paged after.0)
          (read_aligned io off len (paged, s))
  unfolding read_aligned
  read_aligned_lem off len paged s h bound =
      let start = page_down off in
      let total = sub64 (page_up (add64 off len)) start in
      Returns-bind (flush io) _ (flush_lem io reliable paged s h) (λ u mid f.
        Returns-bind (take_sized total) _ (take_sized_lem total mid.0 mid.1)
          (λ buffer taken (sized, kept).
            let ready : Flushed paged taken.0 =
              subst (Flushed paged) (sym kept) (Flushed-pool paged mid.0 taken.0.pool f) in
            Returns-bind
              (on_io io (λ file.
                io.read_vec file (record { off = start; len = length buffer.content } ∷ [])))
              (λ pages. pure (record buffer { content = first_buffer pages }, sub64 off start))
              (read_one io reliable start (length buffer.content) taken.0 taken.1
                ready.coherent.is_file
                (omega (arith, sized, page_down_lem off (omega arith), window_end off len bound)))
              (λ pages after (read, same). returns _ after (
                ap (slice (sub64 off start) (sub64 off start + len))
                      (read ∙ ap (λ c. read_cells c start (length buffer.content)) ready.written)
                    ∙ slice-read_cells (view paged) start (sub64 off start) len
                        (length buffer.content) (omega (arith, sized, (window off len bound).1))
                    ∙ ap (λ i. read_cells (view paged) i len) (window off len bound).0,
                subst (Flushed paged) (sym same) ready,
              ))))
