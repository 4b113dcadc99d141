-- ===== src/Data/Flush/Geometry.antt =====
-- The pages of one staged write: the words of `flush` without their wrap-around, and the bytes of
-- the buffer that it fills up.
use uol_ms_project.Prelude.{
  ℕ, zero, suc, ◌+◌, ◌-◌, ◌*◌, ◌/◌, ◌%◌, ◌≤◌, ◌<◌, ◌≡◌, ◌≢◌, inl, inr, refl, sym, ap, ◌∙◌,
  Bool-cases, [], ◌∷◌, ◌++◌, length, length-drop, length-replicate, take_all, drop, replicate, ltb,
  ltb→le, sub64, arith,
}
use mathlib.Core.List.{append-nil}
use uol_ms_project.Bytes.{Bytes, put_at}
use uol_ms_project.Format.{page_size, page_down, page_up}
use uol_ms_project.Format.Pages.{page_down_lem, page_up_lem}
use uol_ms_project.Io.AlignedBuf
use uol_ms_project.Data.{StagedWrite, base, end_of}
use uol_ms_project.Data.View.{stop, page_stop, limit}
use uol_ms_project.Data.Flush.{grown, within, with_suffix}

-- Filling up a tail of zeros.
put_at-end :
    (n : ℕ) (xs ys zs : Bytes)
    → n ≡ length xs
    → length ys ≡ length zs
    → put_at n ys (xs ++ zs) ≡ xs ++ ys
unfolding put_at
put_at-end n [] [] [] e h = refl
put_at-end n [] [] (z ∷ zs) e h = absurd (omega arith)
put_at-end n [] (y ∷ ys) [] e h = absurd (omega arith)
put_at-end zero [] (y ∷ ys) (z ∷ zs) e h =
    ap (λ t. y ∷ t) (put_at-end zero [] ys zs refl (omega arith))
put_at-end (suc n) [] (y ∷ ys) (z ∷ zs) e h = absurd (omega arith)
put_at-end n (x ∷ xs) [] [] e h = refl
put_at-end n (x ∷ xs) [] (z ∷ zs) e h = absurd (omega arith)
put_at-end n (x ∷ xs) (y ∷ ys) [] e h = absurd (omega arith)
put_at-end zero (x ∷ xs) (y ∷ ys) (z ∷ zs) e h = absurd (omega arith)
put_at-end (suc n) (x ∷ xs) (y ∷ ys) (z ∷ zs) e h =
    ap (λ t. x ∷ t) (put_at-end n xs (y ∷ ys) (z ∷ zs) (omega arith) (omega arith))

zeros : (n : ℕ) → length (replicate {A = ℕ} n 0) ≡ n
zeros n = length-replicate n 0

-- The words of the source without their wrap-around, and where they lie.
pub record Geometry (w : StagedWrite) : Type 0 where
  pub end_eq : end_of w ≡ stop w
  pub up_eq : page_up (end_of w) ≡ page_stop w
  pub size_eq : sub64 (page_up (end_of w)) (base w) ≡ page_stop w - base w
  pub last_eq : page_down (end_of w) ≡ stop w / page_size * page_size
  pub within_eq : within w ≡ stop w - page_down (end_of w)
  pub at_eq : sub64 (page_down (end_of w)) (base w) ≡ page_down (end_of w) - base w
  pub base_le : base w ≤ page_down (end_of w)
  pub last_le : page_down (end_of w) ≤ stop w
  pub stop_le : stop w ≤ page_stop w
  pub aligned : base w % page_size ≡ 0
  pub whole : stop w % page_size ≡ 0 → page_stop w ≡ stop w
  pub partial : stop w % page_size ≢ 0 → page_stop w ≡ page_down (end_of w) + page_size

pub geometry : (w : StagedWrite) → w.start < limit → stop w + page_size ≤ limit → Geometry w
geometry w h k =
    let end_eq : end_of w ≡ stop w = omega arith in
    let last_eq : page_down (end_of w) ≡ stop w / page_size * page_size =
      ap page_down end_eq ∙ page_down_lem (stop w) (omega arith) in
    let up : page_stop w ≡ (stop w + 4095) / page_size * page_size =
      page_up_lem (stop w) (omega arith) in
    let start_eq : base w ≡ w.start / page_size * page_size = page_down_lem w.start (omega arith) in
    record {
      end_eq = end_eq;
      up_eq = ap page_up end_eq;
      size_eq = rw (ap page_up end_eq) (omega arith);
      last_eq = last_eq;
      within_eq = omega arith;
      at_eq = omega arith;
      base_le = omega arith;
      last_le = omega arith;
      stop_le = omega arith;
      aligned = omega arith;
      whole = λ e. omega arith;
      partial = λ e. omega arith;
    }

module _ (w : StagedWrite) (g : Geometry w) where
  -- The staged bytes, grown to whole pages.
  pub content-grown : (grown w).content ≡ w.buffer.content ++ replicate (page_stop w - stop w) 0
  unfolding AlignedBuf.resize_zeroed
  content-grown = elim (Bool-cases (ltb (length w.buffer.content) (page_stop w - base w))) [
    | inl more ↦
        let rest : page_stop w - base w - length w.buffer.content ≡ page_stop w - stop w =
          omega arith in
        rw (g.size_eq, more, rest) refl
    | inr same ↦
        let full : page_stop w - base w ≤ length w.buffer.content =
          ltb→le (length w.buffer.content) (page_stop w - base w) same in
        let rest : page_stop w - stop w ≡ 0 = omega arith in
        rw (g.size_eq, same, rest)
          (take_all (page_stop w - base w) w.buffer.content (omega arith)
            ∙ sym (append-nil w.buffer.content))
  ]

  pub content-with_suffix :
      (page : Bytes)
      → length page ≡ page_size
      → stop w % page_size ≢ 0
      → (with_suffix w page (grown w)).content ≡ w.buffer.content ++ drop (within w) page
  content-with_suffix page size odd =
      rw (content-grown, g.at_eq)
        (put_at-end _ w.buffer.content _ _ (omega arith)
          (omega (arith, length-drop (within w) page, zeros (page_stop w - stop w), g.partial odd)))
