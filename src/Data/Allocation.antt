-- ===== src/Data/Allocation.antt =====
-- `PagedFile::ensure_alloc`: the file grows, and nothing that can be read changes.
use uol_ms_project.Prelude.{
  ◌%◌, ◌⊎◌, ◌<◌, ℕ, ◌+◌, ◌≤◌, ◌≡◌, max, inl, inr, refl, sym, ap, subst, ◌∙◌, Bool-cases, leb,
  leb→le, leb→lt, add64, sub64, arith,
}
use uol_ms_project.Prelude.Exec.{Returns, returns, Returns-bind}
use uol_ms_project.Format.{page_size, page_up}
use uol_ms_project.Format.Pages.{page_up_lem}
use uol_ms_project.Io.{BlockIo, File, IsReliable}
use uol_ms_project.Data.{PagedFile}
use uol_ms_project.Data.View.{view, limit, IsCoherent}
use uol_ms_project.Data.Access.{on_file, Returns-on_file}
use uol_ms_project.Data.Files.{ensure_alloc}

-- The file got longer, in whole pages: it reaches its new end, which lies a chunk at least behind the
-- old one and less than a page behind what was needed. Only the file's size and the end changed.
pub record IsGrown (upto chunk : ℕ) (paged after : PagedFile) : Type 0 where
  pub was_short : paged.allocated_end < upto
  pub upto_end : upto ≤ after.allocated_end
  pub by_chunk : paged.allocated_end + chunk ≤ after.allocated_end
  pub whole_pages : after.allocated_end % page_size ≡ 0
  pub least : after.allocated_end < max upto (paged.allocated_end + chunk) + page_size
  pub size : after.file.size ≡ max paged.file.size after.allocated_end
  pub frame : after ≡ record paged {
    file = record paged.file { size = after.file.size };
    allocated_end = after.allocated_end;
  }

pub record IsAllocated (upto chunk : ℕ) (paged after : PagedFile) : Type 0 where
  pub coherent : IsCoherent after
  pub same_view : view after ≡ view paged
  pub enough : upto ≤ after.allocated_end
  pub at_most : after.allocated_end ≤ max paged.allocated_end (upto + chunk + page_size)
  pub no_less : paged.allocated_end ≤ after.allocated_end
  pub grows : ((upto ≤ paged.allocated_end) × (after ≡ paged)) ⊎ IsGrown upto chunk paged after

abbrev longer : File → ℕ → File
longer file end = record file { size = max file.size end }

longer-IsAllocated :
    (upto chunk end end' : ℕ) (paged : PagedFile)
    → IsCoherent paged
    → paged.allocated_end < upto
    → max upto (paged.allocated_end + chunk) ≤ end
    → end < max upto (paged.allocated_end + chunk) + page_size
    → end % page_size ≡ 0
    → end' ≡ end
    → IsAllocated upto chunk paged
        (record paged { file = longer paged.file end'; allocated_end = end })
longer-IsAllocated upto chunk end end' paged h short a c pages e = record {
  coherent = record {
    is_file = λ i past. h.is_file i (omega arith);
    cache = h.cache;
    staged = h.staged;
    apart = h.apart;
  };
  same_view = refl;
  enough = omega (arith, a);
  no_less = omega (arith, a);
  at_most = omega (arith, c, short);
  grows = inr (record {
    was_short = short;
    upto_end = omega (arith, a);
    by_chunk = omega (arith, a);
    whole_pages = pages;
    least = c;
    size = ap (max paged.file.size) e;
    frame = refl;
  });
}

module _ (io : BlockIo) (reliable : IsReliable io) where
  -- Over a reliable backend, allocation succeeds on a coherent paged file, for ends a page below
  -- 2 ^ 63. If the allocated end had reached `upto`, the paged file is as it was. If not, a file that
  -- is shorter than the new allocated end is made that long; this end is a multiple of the page size,
  -- has reached `upto` and lies `chunk` at least behind the old one, but less than a page behind the
  -- larger of the two. Nothing else of the paged file changes; it is coherent, and it stands for the
  -- same bytes.
  pub ensure_alloc_lem :
      (upto chunk : ℕ) (paged : PagedFile) (s : BlockIo.Io io)
      → IsCoherent paged
      → upto + page_size ≤ limit
      → paged.allocated_end + chunk + page_size ≤ limit
      → Returns
          (λ _ after. IsAllocated upto chunk paged after.0)
          (ensure_alloc io upto chunk (paged, s))
  unfolding ensure_alloc
  ensure_alloc_lem upto chunk paged s h small room =
      elim (Bool-cases (leb upto paged.allocated_end)) [
        | inl enough ↦ rw enough (
            returns tt (paged, s)
              (record {
                coherent = h;
                same_view = refl;
                enough = leb→le _ _ enough;
                no_less = omega arith;
                at_most = omega arith;
                grows = inl (leb→le _ _ enough, refl);
              }))
        | inr short ↦
            let new_end = page_up (max upto (add64 paged.allocated_end chunk)) in
            let size = sub64 new_end paged.allocated_end in
            let up : (max upto (paged.allocated_end + chunk) ≤ new_end)
                × (new_end < max upto (paged.allocated_end + chunk) + page_size)
                × (new_end % page_size ≡ 0) =
              omega
                (arith, page_up_lem (max upto (add64 paged.allocated_end chunk)) (omega arith)) in
            rw short (
              Returns-bind (on_file io (io.fallocate paged.allocated_end size)) _
                (Returns-on_file io (io.fallocate paged.allocated_end size) paged s
                  (reliable.allocates paged.file paged.allocated_end size s))
                (λ u after (grown, kept). returns tt _ (
                  subst
                    (λ (q : PagedFile).
                      IsAllocated upto chunk paged (record q { allocated_end = new_end }))
                    (sym (kept ∙ ap (λ f. record paged { file = f }) grown))
                    (longer-IsAllocated upto chunk new_end (paged.allocated_end + size) paged h
                      (leb→lt _ _ short) up.0 up.1 up.2 (omega (arith, up, leb→lt _ _ short))))))
      ]
