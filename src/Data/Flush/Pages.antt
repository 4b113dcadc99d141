-- ===== src/Data/Flush/Pages.antt =====
-- The page that fills up a staged write: whether it comes from the head, from the cache or from the
-- file, it holds the file's bytes.
use uol_ms_project.Prelude.{
  ◌^◌, ℕ, ◌+◌, ◌≤◌, ◌<◌, ◌≡◌, inl, inr, refl, sym, subst, ◌∙◌, Bool-cases, Option, none, some, [],
  ◌∷◌, ◌==◌, ==→eq, arith,
}
use uol_ms_project.Prelude.Exec.{pure, Returns, returns, Returns-bind}
use uol_ms_project.Bytes.{Bytes}
use uol_ms_project.Format.{page_size, page_down}
use uol_ms_project.Io.{BlockIo, IsFile, IsReliable, read_cells}
use uol_ms_project.Io.Overlay.{length-read_cells, get_or-read_cells}
use uol_ms_project.Data.{StagedWrite, base, end_of, PagedFile}
use uol_ms_project.Data.View.{IsPage, IsCache}
use uol_ms_project.Data.Access.{on_io, first_buffer, read_one}
use uol_ms_project.Data.Flush.{cached_page, suffix_page}

-- A page by the bytes of a file is a page by any bytes that agree with them there.
pub IsPage-agree :
    (f g : ℕ → ℕ) (off : ℕ) (page : Bytes)
    → ((i : ℕ) → off ≤ i → i < off + page_size → g i ≡ f i)
    → IsPage g off page
    → IsPage f off page
IsPage-agree f g off page same p = record {
  size = p.size;
  bytes = λ j h. p.bytes j h ∙ same (off + j) (omega arith) (omega arith);
}

module _ (io : BlockIo) (reliable : IsReliable io) where
  -- A page that is read is the file's.
  pub cached_page_lem :
      (off : ℕ) (cached : Option Bytes) (paged : PagedFile) (s : BlockIo.Io io)
      → IsFile paged.file
      → off + page_size < 2 ^ 64
      → ((page : Bytes) → cached ≡ some page → IsPage paged.file.cell off page)
      → Returns
          (λ page after. IsPage paged.file.cell off page × (after.0 ≡ paged))
          (cached_page io off cached (paged, s))
  unfolding cached_page
  cached_page_lem off (some page) paged s file fits h = returns page (paged, s) (h page refl, refl)
  cached_page_lem off none paged s file fits h =
      Returns-bind
        (on_io io (λ file. BlockIo.read_vec io file (record { off = off; len = page_size } ∷ [])))
        (λ pages. pure (first_buffer pages)) (read_one io reliable off page_size paged s file fits)
        (λ pages after (e, same).
          returns (first_buffer pages) after (rw e (read_page paged.file.cell off), same))
    where
      read_page : (cell : ℕ → ℕ) (off : ℕ) → IsPage cell off (read_cells cell off page_size)
      read_page cell off = record {
        size = length-read_cells cell off page_size;
        bytes = get_or-read_cells cell off page_size;
      }

  -- The page that fills up the last page of a staged write holds the file's bytes.
  pub suffix_page_lem :
      (w : StagedWrite) (head : Option Bytes) (paged : PagedFile) (s : BlockIo.Io io) (g : ℕ → ℕ)
      → IsFile paged.file
      → page_down (end_of w) + page_size < 2 ^ 64
      → ((page : Bytes) → head ≡ some page → IsPage paged.file.cell (base w) page)
      → IsCache g paged.tail_pages
      → ((i : ℕ)
          → page_down (end_of w) ≤ i
          → i < page_down (end_of w) + page_size
          → g i ≡ paged.file.cell i)
      → Returns
          (λ page after. IsPage paged.file.cell (page_down (end_of w)) page × (after.0 ≡ paged))
          (suffix_page io w head (paged, s))
  unfolding suffix_page
  suffix_page_lem w none paged s g file fits hd cache same =
      let last = page_down (end_of w) in
      cached_page_lem last (paged.tail_pages last) paged s file fits
        (λ page e. IsPage-agree paged.file.cell g last page same (cache.cached last page e))
  suffix_page_lem w (some page) paged s g file fits hd cache same =
      elim (Bool-cases (page_down (end_of w) == base w)) [
        | inl first ↦
            let at : page_down (end_of w) ≡ base w = ==→eq _ _ first in
            rw first (
              returns page (paged, s)
                (subst (λ off. IsPage paged.file.cell off page) (sym at) (hd page refl), refl))
        | inr later ↦
            let last = page_down (end_of w) in
            rw later (
              cached_page_lem last (paged.tail_pages last) paged s file fits (λ cached e.
                IsPage-agree paged.file.cell g last cached same (cache.cached last cached e)))
      ]
