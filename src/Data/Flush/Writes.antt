-- ===== src/Data/Flush/Writes.antt =====
-- `PagedFile::flush` as a whole: what the loop and the vectored write leave in the file and in the
-- cache.
use uol_ms_project.Prelude.{
  ℕ, ◌≤◌, ◌<◌, ◌≡◌, inl, inr, refl, sym, ap, subst, fun_ext, ◌∙◌, ◌&&◌, Bool-cases, List, [], ◌∷◌,
  All, length, length-append, map, ◌==◌, ==→eq, ltb, leb, arith,
}
use uol_ms_project.Prelude.Exec.{Returns, returns, Returns-bind}
use uol_ms_project.Io.{
  BlockIo, File, IsFile, IsReliable, overlay, write_cells, write_requests, IsWritable,
}
use uol_ms_project.Io.Overlay.{overlay_above, overlay_below, write_requests-IsFile}
use uol_ms_project.Format.{page_down}
use uol_ms_project.Io.AlignedBuf.{AlignedBuf}
use uol_ms_project.Data.{
  StagedWrite, base, PagedFile, max_pooled_buffers, max_pooled_buffer_capacity,
}
use uol_ms_project.Data.View.{
  stop, page_stop, laid, view, IsCache, IsStaged, IsCoherent, Apart, AllApart, page_facts,
}
use uol_ms_project.Data.Access.{on_file, recycle, Returns-on_file}
use uol_ms_project.Data.Flush.{finish, finish_all, request, recycle_all, flush}
use uol_ms_project.Data.Flush.Finish.{IsDone, overlay-done, finish_lem}

-- `f` agrees with `cell` on the pages of the staged writes.
abbrev Agrees : (ℕ → ℕ) → (ℕ → ℕ) → List StagedWrite → Type 0
Agrees f cell ws = All (λ w. (i : ℕ) → base w ≤ i → i < page_stop w → f i ≡ cell i) ws

Agrees-refl : (cell : ℕ → ℕ) (ws : List StagedWrite) → Agrees cell cell ws
Agrees-refl cell [] = tt
Agrees-refl cell (w ∷ ws) = (λ i h k. refl, Agrees-refl cell ws)

-- Laying one staged write leaves the pages of the others alone.
Agrees-overlay :
    (w : StagedWrite) (f cell : ℕ → ℕ) (ws : List StagedWrite)
    → stop w ≤ page_stop w
    → All (Apart w) ws
    → Agrees f cell ws
    → Agrees (overlay (base w) w.buffer.content f) cell ws
Agrees-overlay w f cell [] h apart a = tt
Agrees-overlay w f cell (v ∷ vs) h (inl before, aparts) (a, more) = (
  λ i l m. overlay_above (base w) w.buffer.content f i (omega arith) ∙ a i l m,
  Agrees-overlay w f cell vs h aparts more,
)
Agrees-overlay w f cell (v ∷ vs) h (inr behind, aparts) (a, more) = (
  λ i l m. overlay_below (base w) w.buffer.content f i (omega arith) ∙ a i l m,
  Agrees-overlay w f cell vs h aparts more,
)

-- The finished writes stand for the staged ones, in order.
abbrev AllDone : (ℕ → ℕ) → List StagedWrite → List StagedWrite → Type 0
AllDone cell [] [] = Unit {0}
AllDone cell [] (d ∷ ds) = ⊥
AllDone cell (w ∷ ws) [] = ⊥
AllDone cell (w ∷ ws) (d ∷ ds) = IsDone cell w d × AllDone cell ws ds

-- Writing them one after the other lays the staged bytes over the file.
cell-write_requests :
    (cell : ℕ → ℕ) (ws ds : List StagedWrite) (file : File)
    → AllDone cell ws ds
    → All (IsStaged cell) ws
    → AllApart ws
    → Agrees file.cell cell ws
    → (write_requests (map request ds) file).cell ≡ laid ws file.cell
cell-write_requests cell [] [] file done staged apart a = refl
cell-write_requests cell [] (d ∷ ds) file done staged apart a = elim done [ ]
cell-write_requests cell (w ∷ ws) [] file done staged apart a = elim done [ ]
cell-write_requests cell (w ∷ ws) (d ∷ ds) file (done, dones) (st, sts) (apart, aparts) (a, more) =
    let facts = page_facts w st.start st.bound in
    let layer : overlay (base d) d.buffer.content file.cell
        ≡ overlay (base w) w.buffer.content file.cell =
      fun_ext (overlay-done cell w d done file.cell (λ i h k. a i (omega (arith, facts)) k)) in
    cell-write_requests cell ws ds (write_cells (base d) d.buffer.content file) dones sts aparts (
      subst (λ f. Agrees f cell ws) (sym layer)
        (Agrees-overlay w file.cell cell ws facts.2 apart more))
    ∙ ap (laid ws) layer

-- Their bytes end below 2 ^ 64.
AllDone-IsWritable :
    (cell : ℕ → ℕ) (ws ds : List StagedWrite)
    → AllDone cell ws ds
    → All (IsStaged cell) ws
    → All IsWritable (map request ds)
AllDone-IsWritable cell [] [] done staged = tt
AllDone-IsWritable cell [] (d ∷ ds) done staged = elim done [ ]
AllDone-IsWritable cell (w ∷ ws) [] done staged = elim done [ ]
AllDone-IsWritable cell (w ∷ ws) (d ∷ ds) (done, dones) (st, sts) = (
  omega (
    arith,
    ap length done.content,
    length-append w.buffer.content done.suffix,
    done.size,
    ap page_down done.start,
    page_facts w st.start st.bound,
    st.bound,
  ),
  AllDone-IsWritable cell ws ds dones sts,
)

pub recycle-frame :
    (buffer : AlignedBuf) (paged : PagedFile)
    → recycle buffer paged ≡ record paged { pool = (recycle buffer paged).pool }
unfolding recycle
recycle-frame buffer paged =
    elim (Bool-cases (
      ltb (length paged.pool) max_pooled_buffers
      && leb buffer.capacity max_pooled_buffer_capacity)) [
        | inl kept ↦ rw kept refl
        | inr dropped ↦ rw dropped refl
      ]

recycle_all-frame :
    (ds : List StagedWrite) (paged : PagedFile)
    → recycle_all ds paged ≡ record paged { pool = (recycle_all ds paged).pool }
recycle_all-frame [] paged = refl
recycle_all-frame (d ∷ ds) paged =
    recycle_all-frame ds (recycle d.buffer paged)
    ∙ ap (λ (q : PagedFile). record q { pool = (recycle_all (d ∷ ds) paged).pool })
        (recycle-frame d.buffer paged)

pub record FinishedAll (ws : List StagedWrite) (paged : PagedFile) (g : ℕ → ℕ)
    (ds : List StagedWrite) (after : PagedFile) : Type 0 where
  pub are_done : AllDone paged.file.cell ws ds
  pub frame : after ≡ record paged { tail_pages = after.tail_pages }
  pub cache : IsCache (laid ws g) after.tail_pages

-- What is left at the end of a flush that had something to write.
pub record Flushed (paged after : PagedFile) : Type 0 where
  pub coherent : IsCoherent after
  pub nothing_staged : after.staged_writes ≡ []
  pub written : after.file.cell ≡ view paged
  pub same_end : after.allocated_end ≡ paged.allocated_end

module _ (io : BlockIo) (reliable : IsReliable io) where
  finish_all_lem :
      (ws : List StagedWrite) (paged : PagedFile) (s : BlockIo.Io io) (g : ℕ → ℕ)
      → IsFile paged.file
      → All (IsStaged paged.file.cell) ws
      → AllApart ws
      → IsCache g paged.tail_pages
      → Agrees g paged.file.cell ws
      → Returns (λ ds after. FinishedAll ws paged g ds after.0) (finish_all io ws (paged, s))
  unfolding finish_all
  finish_all_lem [] paged s g file staged apart cache a =
      returns [] (paged, s) (record { are_done = tt; frame = refl; cache = cache })
  finish_all_lem (w ∷ ws) paged s g file (st, sts) (apart, aparts) cache (a, more) =
      let facts = page_facts w st.start st.bound in
      let g' = overlay (base w) w.buffer.content g in
      Returns-bind (finish io w) _ (finish_lem io reliable w paged s g file st cache a) (λ d mid f.
        let same : mid.0.file ≡ paged.file = ap (λ (q : PagedFile). q.file) f.frame in
        let cell : mid.0.file.cell ≡ paged.file.cell = ap (λ (q : File). q.cell) same in
        Returns-bind (finish_all io ws) _
          (finish_all_lem ws mid.0 mid.1 g' (subst IsFile (sym same) file)
            (subst (λ c. All (IsStaged c) ws) (sym cell) sts) aparts f.cache
            (subst (λ c. Agrees g' c ws) (sym cell)
              (Agrees-overlay w g paged.file.cell ws facts.2 apart more)))
          (λ ds after r. returns (d ∷ ds) after (record {
            are_done = (f.is_done, subst (λ c. AllDone c ws ds) cell r.are_done);
            frame =
                r.frame
                ∙ ap (λ (q : PagedFile). record q { tail_pages = after.0.tail_pages }) f.frame;
            cache = r.cache;
          })))

  flushed :
      (paged mid after : PagedFile) (ds : List StagedWrite)
      → IsCoherent paged
      → FinishedAll paged.staged_writes (record paged { staged_writes = [] }) paged.file.cell ds mid
      → after ≡ record mid { file = write_requests (map request ds) mid.file }
      → Flushed paged (recycle_all ds (record after { pending_bytes = 0 }))
  flushed paged mid after ds h f e = record {
    coherent = record {
      is_file =
          subst IsFile (sym file) (write_requests-IsFile (map request ds) paged.file h.is_file);
      cache =
          subst (λ c. IsCache c end.tail_pages) (sym cell) (subst (IsCache _) (sym pages) f.cache);
      staged = subst (All (IsStaged end.file.cell)) (sym nothing) tt;
      apart = subst AllApart (sym nothing) tt;
    };
    nothing_staged = nothing;
    written = cell;
    same_end =
        ap (λ (q : PagedFile). q.allocated_end) framed
        ∙ ap (λ (q : PagedFile). q.allocated_end) e
        ∙ ap (λ (q : PagedFile). q.allocated_end) f.frame;
  }
    where
      end : PagedFile
      end = recycle_all ds (record after { pending_bytes = 0 })

      framed : end ≡ record after { pending_bytes = 0; pool = end.pool }
      framed = recycle_all-frame ds (record after { pending_bytes = 0 })

      nothing : end.staged_writes ≡ []
      nothing =
          ap (λ (q : PagedFile). q.staged_writes) framed
          ∙ ap (λ (q : PagedFile). q.staged_writes) e
          ∙ ap (λ (q : PagedFile). q.staged_writes) f.frame

      pages : end.tail_pages ≡ mid.tail_pages
      pages = ap (λ (q : PagedFile). q.tail_pages) framed ∙ ap (λ (q : PagedFile). q.tail_pages) e

      file : end.file ≡ write_requests (map request ds) paged.file
      file =
          ap (λ (q : PagedFile). q.file) framed
          ∙ ap (λ (q : PagedFile). q.file) e
          ∙ ap (λ (q : PagedFile). write_requests (map request ds) q.file) f.frame

      cell : end.file.cell ≡ view paged
      cell =
          ap (λ (q : File). q.cell) file
          ∙ cell-write_requests paged.file.cell paged.staged_writes ds paged.file f.are_done
              h.staged h.apart (Agrees-refl paged.file.cell paged.staged_writes)

  -- A flush of a coherent paged file succeeds, over a reliable backend. Afterwards the file holds
  -- what the paged file stood for, staged bytes included and every other byte unchanged, nothing is
  -- staged, the paged file is coherent, and its allocated end is where it was.
  pub flush_lem :
      (paged : PagedFile) (s : BlockIo.Io io)
      → IsCoherent paged
      → Returns (λ _ after. Flushed paged after.0) (flush io (paged, s))
  unfolding flush
  flush_lem paged s h = elim (Bool-cases (length paged.staged_writes == 0)) [
    | inl none_staged ↦
        let nothing = length-nil paged.staged_writes (==→eq _ _ none_staged) in
        rw none_staged (
          returns tt (paged, s)
            (record {
              coherent = h;
              nothing_staged = nothing;
              written = ap (λ ws. laid ws paged.file.cell) (sym nothing);
              same_end = refl;
            }))
    | inr some_staged ↦
        let emptied : PagedFile = record paged { staged_writes = [] } in
        rw some_staged (
          Returns-bind (finish_all io paged.staged_writes) _
            (finish_all_lem paged.staged_writes emptied s paged.file.cell h.is_file h.staged h.apart
              h.cache (Agrees-refl paged.file.cell paged.staged_writes))
            (λ ds mid f.
              Returns-bind (on_file io (io.write_vec (map request ds))) _
                (Returns-on_file io (io.write_vec (map request ds)) mid.0 mid.1 (
                  reliable.writes mid.0.file (map request ds) mid.1 (
                    AllDone-IsWritable paged.file.cell paged.staged_writes ds f.are_done h.staged)))
                (λ u after (w, kept). returns tt _ (
                  flushed paged mid.0 after.0 ds h f
                    (kept ∙ ap (λ q. record mid.0 { file = q }) w)))))
  ]
    where
      length-nil : (ws : List StagedWrite) → length ws ≡ 0 → ws ≡ []
      length-nil [] e = refl
      length-nil (w ∷ ws) e = absurd (omega arith)
