-- ===== src/Data/Stage/Writes.antt =====
-- `stage` as a whole: whichever way the new bytes go, the paged file then stands for them over what
-- it stood for.
use uol_ms_project.Prelude.{
  ◌^◌, ◌<◌, ℕ, ◌+◌, ◌*◌, ◌≤◌, ◌≡◌, inl, inr, refl, sym, ap, subst, ◌∙◌, true, false, Bool-cases,
  Option, Option-cases, List, [], ◌∷◌, ◌++◌, All, length, leb, add64, sub64, arith,
}
use uol_ms_project.Prelude.Exec.{Returns, returns, Returns-bind}
use uol_ms_project.Bytes.{Bytes}
use uol_ms_project.Format.{page_size, page_down, page_up}
use uol_ms_project.Format.Pages.{page_down_lem}
use uol_ms_project.Io.{BlockIo, IsReliable, overlay}
use uol_ms_project.Io.AlignedBuf
use uol_ms_project.Io.AlignedBuf.{AlignedBuf}
use uol_ms_project.Data.{base, PagedFile, max_staged_writes}
use uol_ms_project.Data.View.{limit, IsCoherent}
use uol_ms_project.Data.Access.{take_buffer}
use uol_ms_project.Data.Stage.{
  joined, extend_parts, Split, ending_at, blocked, any_overlap, head_of, head_bytes, flush_if,
  stage_new, stage_at, stage,
}
use uol_ms_project.Data.Stage.Parts.{
  Clear, any_overlap-Clear, content-extend_parts, content-extend_from_slice, ending_at_lem,
}
use uol_ms_project.Data.Stage.Open.{IsStage, extended-IsStage}
use uol_ms_project.Data.Stage.Push.{fresh-IsStage}
use uol_ms_project.Data.Stage.Fresh.{
  Kept, Kept-pool, Kept-trans, IsHead, flush_if_lem, clear_pages, head_of_lem,
}

module _ {Io : Type 0} where
  take_buffer_lem :
      (paged : PagedFile) (s : Io)
      → Returns
          (λ buffer after. (buffer.content ≡ []) × (after.0 ≡ record paged { pool = after.0.pool }))
          (take_buffer (paged, s))
  unfolding take_buffer AlignedBuf.clear
  take_buffer_lem paged s = returns _ _ (refl, refl)

-- Over what stands for the same bytes.
IsStage-Kept :
    (off : ℕ) (bytes : Bytes) (paged mid after : PagedFile)
    → Kept paged mid
    → IsStage off bytes mid after
    → IsStage off bytes paged after
IsStage-Kept off bytes paged mid after k st = record {
  coherent = st.coherent;
  laid_over = λ i. st.laid_over i ∙ ap (λ v. overlay off bytes v i) k.same_view;
  same_end = st.same_end ∙ k.same_end;
}

module _ (io : BlockIo) (reliable : IsReliable io) where
  -- The buffer is filled when the pages are clear, the head is read and a buffer is taken.
  filled_lem :
      (off : ℕ) (parts : List Bytes) (head : Option Bytes) (buffer : AlignedBuf)
      → buffer.content ≡ []
      → (extend_parts parts (
          AlignedBuf.extend_from_slice
            (head_bytes head (sub64 off (page_down off)))
            buffer)).content
        ≡ head_bytes head (sub64 off (page_down off)) ++ joined parts
  filled_lem off parts head buffer e =
      content-extend_parts parts _
      ∙ ap (λ t. t ++ joined parts)
          (content-extend_from_slice (head_bytes head (sub64 off (page_down off))) buffer
            ∙ ap (λ t. t ++ head_bytes head (sub64 off (page_down off))) e)

  -- The push of the filled buffer, when the two flushes, the pool and the head have done their part.
  pushed :
      (off : ℕ) (parts : List Bytes) (paged two three four : PagedFile) (head : Option Bytes)
      (buffer : AlignedBuf) (pending : ℕ)
      → off + length (joined parts) + 2 * page_size ≤ limit
      → Kept paged three
      → three ≡ record two { pool = three.pool }
      → any_overlap (page_down off) (page_up (off + length (joined parts))) two.staged_writes
        ≡ false
      → four ≡ three
      → IsHead three.file.cell (page_down off) (sub64 off (page_down off)) head
      → buffer.content ≡ head_bytes head (sub64 off (page_down off)) ++ joined parts
      → IsStage off (joined parts) paged (record four {
        pending_bytes = pending;
        staged_writes =
            four.staged_writes ++ record { start = off; buffer = buffer; head = head } ∷ [];
      })
  pushed off parts paged two three four head buffer pending bound kept same free still is_head
        content =
      IsStage-Kept off (joined parts) paged three _ kept (
        subst
          (λ (q : PagedFile). IsStage off (joined parts) three (record q {
            pending_bytes = pending;
            staged_writes =
                q.staged_writes ++ record { start = off; buffer = buffer; head = head } ∷ [];
          }))
          (sym still)
          (fresh-IsStage off parts three head buffer kept.coherent bound
            (ap
                (λ (q : PagedFile).
                  any_overlap (page_down off) (page_up (off + length (joined parts)))
                    q.staged_writes)
                same
              ∙ free)
            is_head content pending))

  stage_new_lem :
      (off : ℕ) (parts : List Bytes) (paged : PagedFile) (s : BlockIo.Io io)
      → IsCoherent paged
      → off + length (joined parts) + 2 * page_size ≤ limit
      → Returns
          (λ _ after. IsStage off (joined parts) paged after.0)
          (stage_new io off parts (paged, s))
  unfolding stage_new
  stage_new_lem off parts paged s h bound =
      let total : add64 off (length (joined parts)) ≡ off + length (joined parts) = omega arith in
      let small : sub64 off (page_down off) ≤ page_size =
        omega (arith, page_down_lem off (omega arith)) in
      let fits : page_down off + page_size < 2 ^ 64 =
        omega (arith, page_down_lem off (omega arith)) in
      Returns-bind (flush_if io (leb max_staged_writes (length paged.staged_writes))) _
        (flush_if_lem io reliable _ paged s h)
        (λ _ one (k1, full).
          Returns-bind
            (flush_if io (
              any_overlap (page_down off) (page_up (add64 off (length (joined parts))))
                one.0.staged_writes))
            _ (clear_pages io reliable _ _ one.0 one.1 k1.coherent)
            (λ _ two (k2, free).
              Returns-bind take_buffer _ (take_buffer_lem two.0 two.1)
                (λ buffer three (empty, same).
                  let k3 = Kept-pool one.0 two.0 three.0 same k2 in
                  Returns-bind (head_of io (page_down off) (sub64 off (page_down off))) _
                    (head_of_lem io reliable _ _ three.0 three.1 k3.coherent small fits)
                    (λ head four (is_head, still). returns tt _ (
                      pushed off parts paged two.0 three.0 four.0 head _ _ bound
                        (Kept-trans paged one.0 three.0 k1 k3) same
                        (ap (λ n. any_overlap (page_down off) (page_up n) two.0.staged_writes)
                            (sym total)
                          ∙ free)
                        still is_head (filled_lem off parts head buffer empty))))))

  -- The open staged write is taken only where the others keep off its pages.
  blocked-Clear :
      (new_end : ℕ) (f : Split)
      → blocked new_end f ≡ false
      → All (Clear (base f.at) new_end) f.before × All (Clear (base f.at) new_end) f.behind
  blocked-Clear new_end f e = elim (Bool-cases (any_overlap (base f.at) new_end f.before)) [
    | inl meets ↦ absurd_bool (sym (rw meets refl) ∙ e)
    | inr off_before ↦ (
      any_overlap-Clear _ _ f.before off_before,
      any_overlap-Clear _ _ f.behind (sym (rw off_before refl) ∙ e),
    )
  ]
    where
      absurd_bool :
          true ≡ false
          → All (Clear (base f.at) new_end) f.before × All (Clear (base f.at) new_end) f.behind
      absurd_bool q = ground (arith, q)

  -- Staging succeeds on a coherent paged file, over a reliable backend, where the bytes end two
  -- pages below 2 ^ 63. The paged file stays coherent, and it then stands for the joined parts at
  -- `off` and for the same bytes as before elsewhere, whether the parts extend an open staged write
  -- or begin their own, with or without flushes; its allocated end is where it was.
  pub stage_lem :
      (off : ℕ) (parts : List Bytes) (paged : PagedFile) (s : BlockIo.Io io)
      → IsCoherent paged
      → off + length (joined parts) + 2 * page_size ≤ limit
      → Returns
          (λ _ after. IsStage off (joined parts) paged after.0)
          (stage io off parts (paged, s))
  unfolding stage stage_at
  stage_lem off parts paged s h bound = elim (Option-cases (ending_at off paged.staged_writes)) [
    | inl none_open ↦ rw none_open (stage_new_lem off parts paged s h bound)
    | inr (f, found) ↦
        rw found (elim (Bool-cases (blocked (page_up (add64 off (length (joined parts)))) f)) [
          | inl in_the_way ↦ rw in_the_way (stage_new_lem off parts paged s h bound)
          | inr free ↦
              let total : add64 off (length (joined parts)) ≡ off + length (joined parts) =
                omega arith in
              let clear = blocked-Clear _ f free in
              let split = ending_at_lem off paged.staged_writes f found in
              rw free (
                returns tt _ (
                  extended-IsStage off parts paged f h split.0 split.1 bound
                    (subst (λ n. All (Clear (base f.at) (page_up n)) f.before) total clear.0)
                    (subst (λ n. All (Clear (base f.at) (page_up n)) f.behind) total clear.1) _))
        ])
  ]
