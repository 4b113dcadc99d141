-- ===== src/Data/Stage/Push.antt =====
-- `stage`, the push: a new staged write on pages of its own.
use uol_ms_project.Prelude.{
  refl, ℕ, ◌+◌, ◌*◌, ◌≤◌, ◌≡◌, sym, ap, subst, ◌∙◌, false, Option, List, [], ◌∷◌, ◌++◌, All, length,
  length-append, sub64, arith,
}
use uol_ms_project.Bytes.{Bytes}
use uol_ms_project.Format.{page_size, page_down, page_up}
use uol_ms_project.Format.Pages.{page_down_lem}
use uol_ms_project.Io.{overlay}
use uol_ms_project.Io.Overlay.{overlay-append, overlay_same, overlay-cong}
use uol_ms_project.Io.AlignedBuf.{AlignedBuf}
use uol_ms_project.Data.{StagedWrite, PagedFile}
use uol_ms_project.Data.View.{
  stop, laid-append, laid-outside, view, limit, IsStaged, IsCoherent, Apart, AllApart, page_facts,
}
use uol_ms_project.Data.Stage.{joined, any_overlap, head_bytes}
use uol_ms_project.Data.Stage.Parts.{Clear, any_overlap-Clear}
use uol_ms_project.Data.Stage.Neighbours.{Clear-Apart, Apart-outside_at, Apart-sym}
use uol_ms_project.Data.Stage.Open.{IsStage}
use uol_ms_project.Data.Stage.Fresh.{IsHead}

All-last :
    {A : Type 0} (P : A → Type 0) (xs : List A) (x : A) → All P xs → P x → All P (xs ++ x ∷ [])
All-last P [] x h p = (p, tt)
All-last P (y ∷ ys) x (q, qs) p = (q, All-last P ys x qs p)

AllApart-last :
    (ws : List StagedWrite) (w : StagedWrite)
    → AllApart ws
    → All (Apart w) ws
    → AllApart (ws ++ w ∷ [])
AllApart-last [] w h a = (tt, tt)
AllApart-last (v ∷ vs) w (h, hs) (a, rest) =
    (All-last (Apart v) vs w h (Apart-sym w v a), AllApart-last vs w hs rest)

-- A new staged write on pages of its own, with the file's bytes before the new ones.
module _ (off : ℕ) (parts : List Bytes) (paged : PagedFile) (head : Option Bytes)
    (buffer : AlignedBuf) (h : IsCoherent paged)
    (bound : off + length (joined parts) + 2 * page_size ≤ limit)
    (clear : any_overlap (page_down off) (page_up (off + length (joined parts))) paged.staged_writes
      ≡ false)
    (is_head : IsHead paged.file.cell (page_down off) (sub64 off (page_down off)) head)
    (content : buffer.content ≡ head_bytes head (sub64 off (page_down off)) ++ joined parts) where
  abbrev new_one : StagedWrite
  new_one = record { start = off; buffer = buffer; head = head }

  pad_eq : (page_down off + sub64 off (page_down off) ≡ off) × (page_down off ≤ off)
  pad_eq = omega (arith, page_down_lem off (omega arith))

  stops : stop new_one ≡ off + length (joined parts)
  stops = omega (
    arith,
    ap length content,
    length-append (head_bytes head (sub64 off (page_down off))) (joined parts),
    is_head.size,
    pad_eq,
  )

  new-IsStaged : IsStaged paged.file.cell new_one
  new-IsStaged = record {
    start = omega arith;
    bound = omega (arith, stops, bound);
    head = is_head.page;
  }

  apart : All (Apart new_one) paged.staged_writes
  apart = Clear-Apart new_one paged.file.cell paged.staged_writes h.staged (
      subst (λ e. All (Clear (page_down off) (page_up e)) paged.staged_writes) (sym stops)
        (any_overlap-Clear _ _ paged.staged_writes clear))

  abbrev hb : Bytes
  hb = head_bytes head (sub64 off (page_down off))

  -- The bytes of the head are there already.
  head_same : (i : ℕ) → overlay (page_down off) hb (view paged) i ≡ view paged i
  head_same i = overlay_same (page_down off) hb (view paged) i (λ j k.
      is_head.bytes j (omega (arith, is_head.size))
      ∙ sym (
          laid-outside paged.staged_writes paged.file.cell (page_down off + j) (
            Apart-outside_at new_one (page_down off + j) paged.file.cell paged.staged_writes
              (omega arith)
              (omega (
                arith,
                is_head.size,
                pad_eq,
                stops,
                page_facts new_one new-IsStaged.start new-IsStaged.bound,
              ))
              h.staged apart)))

  pub fresh-IsStage :
      (pending : ℕ)
      → IsStage off (joined parts) paged (record paged {
        pending_bytes = pending;
        staged_writes = paged.staged_writes ++ new_one ∷ [];
      })
  fresh-IsStage pending = record {
    coherent = record {
      is_file = h.is_file;
      cache = h.cache;
      staged =
          All-last (IsStaged paged.file.cell) paged.staged_writes new_one h.staged new-IsStaged;
      apart = AllApart-last paged.staged_writes new_one h.apart apart;
    };
    laid_over = λ i.
        laid-append paged.staged_writes (new_one ∷ []) paged.file.cell i
        ∙ ap (λ c. overlay (page_down off) c (view paged) i) content
        ∙ overlay-append (page_down off) hb (joined parts) (view paged) i
        ∙ ap (λ o. overlay o (joined parts) (overlay (page_down off) hb (view paged)) i)
            (ap (λ n. page_down off + n) is_head.size ∙ pad_eq.0)
        ∙ overlay-cong off (joined parts) (overlay (page_down off) hb (view paged)) (view paged) i
            (head_same i);
    same_end = refl;
  }
