-- ===== src/Data/Stage/Open.antt =====
-- `stage`, where the new bytes go behind an open staged write.
use uol_ms_project.Prelude.{
  refl, ℕ, ◌+◌, ◌*◌, ◌≤◌, ◌≡◌, sym, ap, subst, ◌∙◌, List, ◌∷◌, ◌++◌, All, length, length-append,
  arith,
}
use uol_ms_project.Bytes.{Bytes}
use uol_ms_project.Format.{page_size, page_up}
use uol_ms_project.Io.{overlay}
use uol_ms_project.Io.Overlay.{overlay-append, overlay-cong}
use uol_ms_project.Data.{StagedWrite, base, end_of, PagedFile}
use uol_ms_project.Data.View.{
  stop, laid, laid-append, laid-cong, laid-overlay, view, limit, IsStaged, IsCoherent, Apart,
  AllApart, page_facts,
}
use uol_ms_project.Data.Stage.{joined, extend_parts, Split, extended}
use uol_ms_project.Data.Stage.Neighbours.{
  All-replace, All-at, All-behind, All-before, AllApart-replace, Clear-Apart, Apart-outside,
}
use uol_ms_project.Data.Stage.Parts.{Clear, content-extend_parts}

-- The paged file stands for the same bytes as before with `bytes` over them.
pub record IsStage (off : ℕ) (bytes : Bytes) (paged after : PagedFile) : Type 0 where
  pub coherent : IsCoherent after
  pub laid_over : (i : ℕ) → view after i ≡ overlay off bytes (view paged) i
  pub same_end : after.allocated_end ≡ paged.allocated_end

module _ (off : ℕ) (parts : List Bytes) (paged : PagedFile) (f : Split) (h : IsCoherent paged)
    (split : paged.staged_writes ≡ f.before ++ f.at ∷ f.behind) (ends : end_of f.at ≡ off)
    (bound : off + length (joined parts) + 2 * page_size ≤ limit)
    (clear : All (Clear (base f.at) (page_up (off + length (joined parts)))) f.before)
    (clear_behind : All (Clear (base f.at) (page_up (off + length (joined parts)))) f.behind) where
  abbrev grown_one : StagedWrite
  grown_one = record f.at { buffer = extend_parts parts f.at.buffer }

  staged : All (IsStaged paged.file.cell) (f.before ++ f.at ∷ f.behind)
  staged = subst (All (IsStaged paged.file.cell)) split h.staged

  here : IsStaged paged.file.cell f.at
  here = All-at (IsStaged paged.file.cell) f.before f.behind f.at staged

  reaches : stop f.at ≡ off
  reaches = omega (arith, here.start, here.bound, ends)

  content : grown_one.buffer.content ≡ f.at.buffer.content ++ joined parts
  content = content-extend_parts parts f.at.buffer

  stops : stop grown_one ≡ off + length (joined parts)
  stops =
      omega (arith, ap length content, length-append f.at.buffer.content (joined parts), reaches)

  grown-IsStaged : IsStaged paged.file.cell grown_one
  grown-IsStaged = record {
    start = here.start;
    bound = omega (arith, stops, bound);
    head = here.head;
  }

  Apart-before : All (Apart grown_one) f.before
  Apart-before =
      Clear-Apart grown_one paged.file.cell f.before
        (All-before (IsStaged paged.file.cell) f.before f.behind f.at staged)
        (subst (λ e. All (Clear (base f.at) (page_up e)) f.before) (sym stops) clear)

  IsStaged-behind : All (IsStaged paged.file.cell) f.behind
  IsStaged-behind = All-behind (IsStaged paged.file.cell) f.before f.behind f.at staged

  Apart-behind : All (Apart grown_one) f.behind
  Apart-behind =
      Clear-Apart grown_one paged.file.cell f.behind IsStaged-behind
        (subst (λ e. All (Clear (base f.at) (page_up e)) f.behind) (sym stops) clear_behind)

  -- The view of the longer staged write: its new bytes lie over all the others.
  view-extended :
      (i : ℕ)
      → laid (extended parts f) paged.file.cell i ≡ overlay off (joined parts) (view paged) i
  view-extended i =
      let under = laid f.before paged.file.cell in
      let kept = overlay (base f.at) f.at.buffer.content under in
      laid-append f.before (grown_one ∷ f.behind) paged.file.cell i
      ∙ laid-cong f.behind _ (overlay off (joined parts) kept) i (
          ap (λ c. overlay (base f.at) c under i) content
          ∙ overlay-append (base f.at) f.at.buffer.content (joined parts) under i
          ∙ ap (λ o. overlay o (joined parts) kept i) reaches)
      ∙ laid-overlay f.behind off (joined parts) kept i (
          Apart-outside grown_one off (length (joined parts)) paged.file.cell f.behind
            (omega (arith, reaches))
            (omega (arith, page_facts grown_one here.start grown-IsStaged.bound, stops))
            IsStaged-behind Apart-behind)
      ∙ overlay-cong off (joined parts) (laid f.behind kept) (view paged) i (
          sym (
            ap (λ ws. laid ws paged.file.cell i) split
            ∙ laid-append f.before (f.at ∷ f.behind) paged.file.cell i))

  -- With the parts behind an open staged write, the paged file stands for the parts over the
  -- bytes that it stood for.
  pub extended-IsStage :
      (pending : ℕ)
      → IsStage off
          (joined parts)
          paged
          (record paged { staged_writes = extended parts f; pending_bytes = pending })
  extended-IsStage pending = record {
    coherent = record {
      is_file = h.is_file;
      cache = h.cache;
      staged =
          All-replace (IsStaged paged.file.cell) f.before f.behind f.at grown_one grown-IsStaged
            staged;
      apart =
          AllApart-replace f.before f.behind f.at grown_one Apart-before Apart-behind
            (subst AllApart split h.apart);
    };
    laid_over = view-extended;
    same_end = refl;
  }
