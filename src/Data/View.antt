-- ===== src/Data/View.antt =====
-- What a paged file stands for: the bytes of its file under those of its staged writes. The
-- invariant keeps staged writes on different pages, and the cached pages equal to the file's.
use uol_ms_project.Prelude.{
  ℕ, ◌+◌, ◌%◌, ◌^◌, ◌≤◌, ◌<◌, ◌≡◌, ◌⊎◌, inl, inr, refl, ◌∙◌, Option, some, List, [], ◌∷◌, ◌++◌, All,
  length, get_or, arith,
}
use uol_ms_project.Bytes.{Bytes}
use uol_ms_project.Format.{page_size, page_up}
use uol_ms_project.Format.Pages.{page_down_lem, page_up_lem}
use uol_ms_project.Io.{IsFile, overlay}
use uol_ms_project.Io.Overlay.{overlay-cong, overlay_comm, overlay_below, overlay_above}
use uol_ms_project.Data.{StagedWrite, base, PagedFile}

-- The end of the staged bytes, and of their last page.
abbrev pub stop : StagedWrite → ℕ
stop w = base w + length w.buffer.content

abbrev pub page_stop : StagedWrite → ℕ
page_stop w = page_up (stop w)

-- The staged writes over a file, the first one lowest.
abbrev pub laid : List StagedWrite → (ℕ → ℕ) → ℕ → ℕ
laid [] cell = cell
laid (w ∷ ws) cell = laid ws (overlay (base w) w.buffer.content cell)

abbrev pub view : PagedFile → ℕ → ℕ
view paged = laid paged.staged_writes paged.file.cell

-- `page` is the page at `off`.
pub record IsPage (cell : ℕ → ℕ) (off : ℕ) (page : Bytes) : Type 0 where
  pub size : length page ≡ page_size
  pub bytes : (j : ℕ) → j < page_size → get_or page j 0 ≡ cell (off + j)

-- The cache holds whole pages, at page offsets, with the bytes of `cell`.
pub record IsCache (cell : ℕ → ℕ) (pages : ℕ → Option Bytes) : Type 0 where
  pub aligned : (k : ℕ) (page : Bytes) → pages k ≡ some page → k % page_size ≡ 0
  pub cached : (k : ℕ) (page : Bytes) → pages k ≡ some page → IsPage cell k page

-- A limit for offsets: far below the end of `u64`, and above any offset of a file.
abbrev pub limit : ℕ
limit = 2 ^ 63

pub record IsStaged (cell : ℕ → ℕ) (w : StagedWrite) : Type 0 where
  pub start : w.start < limit
  pub bound : stop w + page_size ≤ limit
  pub head : (page : Bytes) → w.head ≡ some page → IsPage cell (base w) page

-- Two staged writes are on different pages.
abbrev pub Apart : StagedWrite → StagedWrite → Type 0
Apart w v = (page_stop w ≤ base v) ⊎ (page_stop v ≤ base w)

abbrev pub AllApart : List StagedWrite → Type 0
AllApart [] = Unit {0}
AllApart (w ∷ ws) = All (Apart w) ws × AllApart ws

pub record IsCoherent (paged : PagedFile) : Type 0 where
  pub is_file : IsFile paged.file
  pub cache : IsCache paged.file.cell paged.tail_pages
  pub staged : All (IsStaged paged.file.cell) paged.staged_writes
  pub apart : AllApart paged.staged_writes

-- The pages of a staged write, in plain arithmetic.
pub page_facts :
    (w : StagedWrite)
    → w.start < limit
    → stop w + page_size ≤ limit
    → (base w % page_size ≡ 0)
      × (page_stop w % page_size ≡ 0)
      × (stop w ≤ page_stop w)
      × (page_stop w < stop w + page_size)
page_facts w h k =
    omega (arith, page_down_lem w.start (omega arith), page_up_lem (stop w) (omega arith))

-- Bytes under the staged writes at places that they leave alone.
pub laid-cong :
    (ws : List StagedWrite) (f g : ℕ → ℕ) (i : ℕ) → f i ≡ g i → laid ws f i ≡ laid ws g i
laid-cong [] f g i e = e
laid-cong (w ∷ ws) f g i e =
    laid-cong ws (overlay (base w) w.buffer.content f) (overlay (base w) w.buffer.content g) i
      (overlay-cong (base w) w.buffer.content f g i e)

-- A layer that meets none of the staged writes may as well be the lowest.
pub laid-overlay :
    (ws : List StagedWrite) (off : ℕ) (bytes : Bytes) (cell : ℕ → ℕ) (i : ℕ)
    → All (λ w. (off + length bytes ≤ base w) ⊎ (stop w ≤ off)) ws
    → laid ws (overlay off bytes cell) i ≡ overlay off bytes (laid ws cell) i
laid-overlay [] off bytes cell i h = refl
laid-overlay (w ∷ ws) off bytes cell i (h, hs) =
    laid-cong ws _ _ i (overlay_comm (base w) w.buffer.content off bytes cell i (swap h))
    ∙ laid-overlay ws off bytes (overlay (base w) w.buffer.content cell) i hs
  where
    swap : {A B : Type 0} → A ⊎ B → B ⊎ A
    swap (inl a) = inr a
    swap (inr b) = inl b

pub laid-append :
    (ws vs : List StagedWrite) (cell : ℕ → ℕ) (i : ℕ)
    → laid (ws ++ vs) cell i ≡ laid vs (laid ws cell) i
laid-append [] vs cell i = refl
laid-append (w ∷ ws) vs cell i = laid-append ws vs (overlay (base w) w.buffer.content cell) i

-- At a place that no staged write covers, the file shows.
pub laid-outside :
    (ws : List StagedWrite) (cell : ℕ → ℕ) (i : ℕ)
    → All (λ w. (i < base w) ⊎ (stop w ≤ i)) ws
    → laid ws cell i ≡ cell i
laid-outside [] cell i h = refl
laid-outside (w ∷ ws) cell i (h, hs) =
    laid-outside ws (overlay (base w) w.buffer.content cell) i hs ∙ elim h [
      | inl k ↦ overlay_below (base w) w.buffer.content cell i k
      | inr k ↦ overlay_above (base w) w.buffer.content cell i k
    ]
