-- ===== src/Data/Stage/Fresh.antt =====
-- `stage`, where the new bytes begin a staged write of their own: the flushes that make room for it,
-- and the head of its first page.
use uol_ms_project.Prelude.{
  ◌^◌, ℕ, ◌+◌, ◌≤◌, ◌<◌, ◌≡◌, ◌⊎◌, inl, inr, refl, sym, ap, subst, ◌∙◌, Bool, true, false,
  Bool-cases, Option, none, some, [], length, length-take, get_or, get_or-take, ltb, ltb→le, arith,
}
use uol_ms_project.Prelude.Exec.{pure, Returns, returns, Returns-bind, Returns-weaken}
use uol_ms_project.Bytes.{Bytes}
use uol_ms_project.Format.{page_size}
use uol_ms_project.Io.{BlockIo, IsReliable}
use uol_ms_project.Io.AlignedBuf.{AlignedBuf}
use uol_ms_project.Data.{PagedFile}
use uol_ms_project.Data.View.{laid, view, IsPage, IsCoherent}
use uol_ms_project.Data.Access.{recycle}
use uol_ms_project.Data.Flush.{flush, cached_page}
use uol_ms_project.Data.Flush.Pages.{cached_page_lem}
use uol_ms_project.Data.Flush.Writes.{Flushed, flush_lem, recycle-frame}
use uol_ms_project.Data.Stage.{any_overlap, head_of, head_bytes, flush_if}

-- The paged file stands for the same bytes.
pub record Kept (paged after : PagedFile) : Type 0 where
  pub coherent : IsCoherent after
  pub same_view : view after ≡ view paged
  pub same_end : after.allocated_end ≡ paged.allocated_end

pub Flushed-Kept : (paged after : PagedFile) → Flushed paged after → Kept paged after
Flushed-Kept paged after f = record {
  coherent = f.coherent;
  same_view = ap (λ ws. laid ws after.file.cell) f.nothing_staged ∙ f.written;
  same_end = f.same_end;
}

-- A buffer from the pool changes nothing else.
pub Kept-pool :
    (paged mid after : PagedFile)
    → after ≡ record mid { pool = after.pool }
    → Kept paged mid
    → Kept paged after
Kept-pool paged mid after e k = subst (Kept paged) (sym e) (record {
  coherent = record {
    is_file = k.coherent.is_file;
    cache = k.coherent.cache;
    staged = k.coherent.staged;
    apart = k.coherent.apart;
  };
  same_view = k.same_view;
  same_end = k.same_end;
})

-- Nor does giving one back.
pub recycled-Kept :
    (paged mid : PagedFile) (buffer : AlignedBuf)
    → Flushed paged mid
    → Kept paged (recycle buffer mid)
recycled-Kept paged mid buffer f =
    Kept-pool paged mid (recycle buffer mid) (recycle-frame buffer mid) (Flushed-Kept paged mid f)

pub Kept-trans : (a b c : PagedFile) → Kept a b → Kept b c → Kept a c
Kept-trans a b c p q = record {
  coherent = q.coherent;
  same_view = q.same_view ∙ p.same_view;
  same_end = q.same_end ∙ p.same_end;
}

-- The bytes before the new ones in their first page.
pub record IsHead (cell : ℕ → ℕ) (page_at pad : ℕ) (head : Option Bytes) : Type 0 where
  pub page : (p : Bytes) → head ≡ some p → IsPage cell page_at p
  pub size : length (head_bytes head pad) ≡ pad
  pub bytes : (j : ℕ) → j < pad → get_or (head_bytes head pad) j 0 ≡ cell (page_at + j)

IsHead-page :
    (cell : ℕ → ℕ) (page_at pad : ℕ) (p : Bytes)
    → pad ≤ page_size
    → IsPage cell page_at p
    → IsHead cell page_at pad (some p)
IsHead-page cell page_at pad p h q = record {
  page = λ r e. subst (IsPage cell page_at) (ap or_empty e) q;
  size = omega (arith, length-take pad p, q.size);
  bytes = λ j k. get_or-take pad p j 0 k ∙ q.bytes j (omega arith);
}
  where
    or_empty : Option Bytes → Bytes
    or_empty none = p
    or_empty (some r) = r

module _ (io : BlockIo) (reliable : IsReliable io) where
  pub flush_if_lem :
      (test : Bool) (paged : PagedFile) (s : BlockIo.Io io)
      → IsCoherent paged
      → Returns
          (λ _ after.
            Kept paged after.0
            × (((after.0 ≡ paged) × (test ≡ false)) ⊎ (after.0.staged_writes ≡ [])))
          (flush_if io test (paged, s))
  unfolding flush_if
  flush_if_lem true paged s h =
      Returns-weaken (flush io (paged, s)) (flush_lem io reliable paged s h)
        (λ _ after f. (Flushed-Kept paged after.0 f, inr f.nothing_staged))
  flush_if_lem false paged s h =
      returns tt (paged, s)
        (record { coherent = h; same_view = refl; same_end = refl }, inl (refl, refl))

  -- After the second flush, if it is made, no staged write is left in the way.
  pub clear_pages :
      (from to : ℕ) (paged : PagedFile) (s : BlockIo.Io io)
      → IsCoherent paged
      → Returns
          (λ _ after. Kept paged after.0 × (any_overlap from to after.0.staged_writes ≡ false))
          (flush_if io (any_overlap from to paged.staged_writes) (paged, s))
  clear_pages from to paged s h =
      Returns-weaken _ (flush_if_lem (any_overlap from to paged.staged_writes) paged s h)
        (λ _ after (kept, which). (
          kept,
          elim which [
            | inl (same, free) ↦
                ap (λ (q : PagedFile). any_overlap from to q.staged_writes) same ∙ free
            | inr empty ↦ ap (any_overlap from to) empty
          ],
        ))

  pub head_of_lem :
      (page_at pad : ℕ) (paged : PagedFile) (s : BlockIo.Io io)
      → IsCoherent paged
      → pad ≤ page_size
      → page_at + page_size < 2 ^ 64
      → Returns
          (λ head after. IsHead paged.file.cell page_at pad head × (after.0 ≡ paged))
          (head_of io page_at pad (paged, s))
  unfolding head_of
  head_of_lem page_at pad paged s h small fits = elim (Bool-cases (ltb 0 pad)) [
    | inl some_bytes ↦ rw some_bytes (
        Returns-bind (cached_page io page_at (paged.tail_pages page_at)) (λ p. pure (some p))
          (cached_page_lem io reliable page_at (paged.tail_pages page_at) paged s h.is_file fits
            (h.cache.cached page_at))
          (λ p after (q, same).
            returns (some p) after (IsHead-page paged.file.cell page_at pad p small q, same)))
    | inr no_bytes ↦
        let nothing : pad ≡ 0 = omega (arith, ltb→le 0 pad no_bytes) in
        rw no_bytes (
          returns none (paged, s)
            (
              record {
                page = λ p e. ground (arith, e);
                size = sym nothing;
                bytes = λ j k. absurd (omega (arith, nothing, k));
              },
              refl,
            ))
  ]
