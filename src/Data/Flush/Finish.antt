-- ===== src/Data/Flush/Finish.antt =====
-- What the loop body of `flush` makes of one staged write: whole pages with the staged bytes, the
-- file's bytes behind them, and the last page in the cache.
use uol_ms_project.Prelude.{
  ℕ, ◌+◌, ◌-◌, ◌%◌, ◌≤◌, ◌<◌, ◌≡◌, ◌≢◌, ◌⊎◌, inl, inr, refl, sym, ap, subst, ◌∙◌, Bool-cases,
  Option, none, some, [], ◌++◌, length, length-append, length-drop, length-replicate, length-take,
  drop, replicate, get_or, get_or-drop, get_or-take, ◌==◌, ==→eq, ==→ne, arith,
}
use uol_ms_project.Prelude.Exec.{Returns, returns, Returns-bind}
use uol_ms_project.Bytes.{Bytes}
use uol_ms_project.Format.{page_size, page_down, page_up}
use uol_ms_project.Io.{BlockIo, IsFile, IsReliable, overlay}
use uol_ms_project.Io.Overlay.{
  overlay-append, overlay_same, overlay_in, overlay_above, overlay_below,
}
use uol_ms_project.Data.{StagedWrite, base, end_of, PagedFile, insert_page}
use uol_ms_project.Data.Flush.Geometry.{Geometry, geometry, content-grown, content-with_suffix}
use uol_ms_project.Data.Flush.Pages.{suffix_page_lem}
use uol_ms_project.Data.View.{stop, page_stop, IsPage, IsCache, IsStaged}
use uol_ms_project.Data.Flush.{
  remove_pages, grown, within, with_suffix, last_page, suffix_page, finish,
}

-- A staged write that was finished: the file's bytes stand behind its own, up to a whole page.
pub record IsDone (cell : ℕ → ℕ) (w done : StagedWrite) : Type 0 where
  pub suffix : Bytes
  pub start : done.start ≡ w.start
  pub content : done.buffer.content ≡ w.buffer.content ++ suffix
  pub size : length suffix ≡ page_stop w - stop w
  pub fill : (j : ℕ) → j < length suffix → get_or suffix j 0 ≡ cell (stop w + j)

-- Writing it is the same as writing the staged bytes alone.
pub overlay-done :
    (cell : ℕ → ℕ) (w done : StagedWrite)
    → IsDone cell w done
    → (f : ℕ → ℕ) → ((i : ℕ) → stop w ≤ i → i < page_stop w → f i ≡ cell i)
    → (i : ℕ) → overlay (base done) done.buffer.content f i ≡ overlay (base w) w.buffer.content f i
overlay-done cell w done d f same i =
    rw (d.start, d.content)
      (overlay-append (base w) w.buffer.content d.suffix f i
        ∙ overlay_same (stop w) d.suffix (overlay (base w) w.buffer.content f) i (λ j h.
          d.fill j h
          ∙ sym (same (stop w + j) (omega arith) (omega (arith, d.size)))
          ∙ sym (overlay_above (base w) w.buffer.content f (stop w + j) (omega arith))))

-- A page that stays in the cache is outside the pages that were removed.
remove-kept :
    (from to k : ℕ) (page : Bytes) (pages : ℕ → Option Bytes)
    → from % page_size ≡ 0
    → (pages k ≡ some page → k % page_size ≡ 0)
    → remove_pages from to pages k ≡ some page
    → (pages k ≡ some page) × ((k < from) ⊎ (to ≤ k))
remove-kept from to k page pages h a e = ground (arith, aligned_apart)
  where
    aligned_apart : from ≤ k → k % page_size ≡ 0 → (k - from) % page_size ≡ 0
    aligned_apart l m = omega arith

module _ (g : ℕ → ℕ) (w : StagedWrite) (pages : ℕ → Option Bytes) (geo : Geometry w) where
  IsCache-remove :
      IsCache g pages
      → IsCache
          (overlay (base w) w.buffer.content g)
          (remove_pages (base w) (page_up (end_of w)) pages)
  IsCache-remove cache = record {
    aligned = λ k page e. cache.aligned k page (kept k page e).0;
    cached = λ k page e.
        let p = cache.cached k page (kept k page e).0 in
        record {
          size = p.size;
          bytes = λ j h.
              p.bytes j h
              ∙ sym (untouched k j h (cache.aligned k page (kept k page e).0) (kept k page e).1);
        };
  }
    where
      kept :
          (k : ℕ) (page : Bytes)
          → remove_pages (base w) (page_up (end_of w)) pages k ≡ some page
          → (pages k ≡ some page) × ((k < base w) ⊎ (page_up (end_of w) ≤ k))
      kept k page e =
          remove-kept (base w) (page_up (end_of w)) k page pages geo.aligned
            (λ q. cache.aligned k page q) e

      untouched :
          (k j : ℕ)
          → j < page_size
          → k % page_size ≡ 0
          → (k < base w) ⊎ (page_up (end_of w) ≤ k)
          → overlay (base w) w.buffer.content g (k + j) ≡ g (k + j)
      untouched k j h m (inl below) =
          overlay_below (base w) w.buffer.content g (k + j) (omega (arith, geo.aligned))
      untouched k j h m (inr above) =
          overlay_above (base w) w.buffer.content g (k + j) (omega (arith, geo.up_eq, geo.stop_le))

  -- The last page of a finished buffer is the page of the laid bytes.
  IsPage-last_page :
      (cell : ℕ → ℕ) (done : StagedWrite)
      → IsDone cell w done
      → stop w % page_size ≢ 0
      → ((i : ℕ) → stop w ≤ i → i < page_stop w → g i ≡ cell i)
      → IsPage
          (overlay (base w) w.buffer.content g)
          (page_down (end_of w))
          (last_page w done.buffer)
  IsPage-last_page cell done d odd same = record {
    size =
        rw geo.at_eq
          (omega (arith, length-take (at + page_size - at) (drop at c), length-drop at c, long));
    bytes = λ j h. rw geo.at_eq (
        get_or-take (at + page_size - at) (drop at c) j 0 (omega arith)
        ∙ get_or-drop at c j 0
        ∙ ap (λ i. get_or c i 0) (index j)
        ∙ sym (
            overlay_in (base done) c g (last + j) (omega (arith, start, geo.base_le))
              (omega (arith, start, geo.base_le, long)))
        ∙ overlay-done cell w done d g same (last + j));
  }
    where
      last : ℕ
      last = page_down (end_of w)

      at : ℕ
      at = last - base w

      c : Bytes
      c = done.buffer.content

      start : base done ≡ base w
      start = ap page_down d.start

      long : at + page_size ≡ length c
      long = omega (
        arith,
        ap length d.content,
        length-append w.buffer.content d.suffix,
        d.size,
        geo.partial odd,
        geo.base_le,
        geo.stop_le,
      )

      index : (j : ℕ) → at + j ≡ last + j - base done
      index j = omega (arith, start, geo.base_le)

-- Putting the last page into the cache.
IsCache-insert :
    (cell : ℕ → ℕ) (key : ℕ) (page : Bytes) (pages : ℕ → Option Bytes)
    → key % page_size ≡ 0
    → IsPage cell key page
    → IsCache cell pages
    → IsCache cell (insert_page key page pages)
IsCache-insert cell key page pages whole p cache = record {
  aligned = λ k kept e. elim (Bool-cases (k == key)) [
    | inl same ↦ rw (==→eq k key same) whole
    | inr other ↦ cache.aligned k kept (sym (rw other refl) ∙ e)
  ];
  cached = λ k kept e. elim (Bool-cases (k == key)) [
    | inl same ↦
        let eq : some page ≡ some kept = sym (rw same refl) ∙ e in
        subst (λ q. IsPage cell k q) (ap or_empty eq)
          (subst (λ q. IsPage cell q page) (sym (==→eq k key same)) p)
    | inr other ↦ cache.cached k kept (sym (rw other refl) ∙ e)
  ];
}
  where
    or_empty : Option Bytes → Bytes
    or_empty none = []
    or_empty (some held) = held

-- The body of the loop finishes a staged write: nothing but the cache changes, and the cache then
-- has the bytes that the write will leave.
pub record Finished (w : StagedWrite) (paged : PagedFile) (g : ℕ → ℕ) (done : StagedWrite)
    (after : PagedFile) : Type 0 where
  pub is_done : IsDone paged.file.cell w done
  pub frame : after ≡ record paged { tail_pages = after.tail_pages }
  pub cache : IsCache (overlay (base w) w.buffer.content g) after.tail_pages

module _ (w : StagedWrite) (paged : PagedFile) (g : ℕ → ℕ) (geo : Geometry w)
    (cache : IsCache g paged.tail_pages) where
  -- A staged write that ends at the end of a page.
  Finished-whole :
      stop w % page_size ≡ 0
      → Finished w paged g
          (record w { buffer = grown w })
          (record paged {
            tail_pages = remove_pages (base w) (page_up (end_of w)) paged.tail_pages;
          })
  Finished-whole whole = record {
    is_done = record {
      suffix = replicate (page_stop w - stop w) 0;
      start = refl;
      content = content-grown w geo;
      size = length-replicate (page_stop w - stop w) 0;
      fill = λ j h.
          absurd
            (omega (arith, length-replicate {A = ℕ} (page_stop w - stop w) 0, geo.whole whole));
    };
    frame = refl;
    cache = IsCache-remove g w paged.tail_pages geo cache;
  }

  -- A staged write that ends inside a page.
  Finished-partial :
      (page : Bytes)
      → stop w % page_size ≢ 0
      → IsPage paged.file.cell (page_down (end_of w)) page
      → ((i : ℕ) → stop w ≤ i → i < page_stop w → g i ≡ paged.file.cell i)
      → let buffer = with_suffix w page (grown w) in
        Finished w paged g
          (record w { buffer = buffer })
          (record paged {
            tail_pages =
                insert_page
                  (page_down (end_of w))
                  (last_page w buffer)
                  (remove_pages (base w) (page_up (end_of w)) paged.tail_pages);
          })
  Finished-partial page odd p same = record {
    is_done = done;
    frame = refl;
    cache =
        IsCache-insert (overlay (base w) w.buffer.content g) (page_down (end_of w)) _ _
          (omega (arith, geo.last_eq))
          (IsPage-last_page g w paged.tail_pages geo paged.file.cell _ done odd same)
          (IsCache-remove g w paged.tail_pages geo cache);
  }
    where
      done : IsDone paged.file.cell w (record w { buffer = with_suffix w page (grown w) })
      done = record {
        suffix = drop (within w) page;
        start = refl;
        content = content-with_suffix w geo page p.size odd;
        size = omega (
          arith,
          length-drop (within w) page,
          p.size,
          geo.within_eq,
          geo.partial odd,
          geo.last_le,
        );
        fill = λ j h.
            get_or-drop (within w) page j 0
            ∙ p.bytes (within w + j) (omega (arith, length-drop (within w) page, p.size))
            ∙ ap paged.file.cell (omega (arith, geo.within_eq, geo.last_le));
      }

module _ (io : BlockIo) (reliable : IsReliable io) where
  pub finish_lem :
      (w : StagedWrite) (paged : PagedFile) (s : BlockIo.Io io) (g : ℕ → ℕ)
      → IsFile paged.file
      → IsStaged paged.file.cell w
      → IsCache g paged.tail_pages
      → ((i : ℕ) → base w ≤ i → i < page_stop w → g i ≡ paged.file.cell i)
      → Returns (λ done after. Finished w paged g done after.0) (finish io w (paged, s))
  unfolding finish
  finish_lem w paged s g file st cache same =
      let geo = geometry w st.start st.bound in
      elim (Bool-cases (end_of w % page_size == 0)) [
        | inl whole ↦ rw whole (
            returns _ _ (
              Finished-whole w paged g geo cache
                (ap (λ i. i % page_size) (sym geo.end_eq) ∙ ==→eq _ _ whole)))
        | inr partial ↦
            let odd : stop w % page_size ≢ 0 =
              λ e. ==→ne _ _ partial (ap (λ i. i % page_size) geo.end_eq ∙ e) in
            rw partial (
              Returns-bind (suffix_page io w w.head) _
                (suffix_page_lem io reliable w w.head paged s g file
                  (omega (arith, geo.last_le, st.bound)) st.head cache
                  (λ i h k. same i (omega (arith, geo.base_le)) (omega (arith, geo.partial odd))))
                (λ page after (p, kept). returns _ _ (
                  subst
                    (λ (q : PagedFile).
                      Finished w paged g (record w { buffer = with_suffix w page (grown w) })
                        (record q {
                          tail_pages =
                              insert_page (page_down (end_of w))
                                (last_page w (with_suffix w page (grown w)))
                                (remove_pages (base w) (page_up (end_of w)) q.tail_pages);
                        }))
                    (sym kept)
                    (Finished-partial w paged g geo cache page odd p
                      (λ i h k. same i (omega (arith, geo.stop_le, geo.base_le, geo.last_le)) k)))))
      ]
