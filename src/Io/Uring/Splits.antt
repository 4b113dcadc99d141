-- ===== src/Io/Uring/Splits.antt =====
-- The segments of a request cover its bytes, one behind the other.
use uol_ms_project.Prelude.{
  ==→ne, length-drop, length-take, add64, ==→eq, zero, suc, ◌^◌, sym, drop, take, min, ℕ, ◌+◌, ◌≤◌,
  ◌<◌, ◌≡◌, refl, ap, ◌∙◌, List, [], ◌∷◌, ◌++◌, length, All, ◌==◌, Bool-cases, inl, inr, map, arith,
}
use mathlib.Core.List.{append_assoc}
use uol_ms_project.Bytes.{Bytes}
use uol_ms_project.Io.{File, read_cells}
use uol_ms_project.Io.Parts.{read_cells-append}
use uol_ms_project.Io.Uring.{IoSegment, len, split, split_loop, ReadBuffer, read_segments}
use uol_ms_project.Data.Stage.{joined}

-- A segment before its submission. Its length is a word of the ring's.
abbrev pub IsFresh : IoSegment → Type 0
IsFresh segment =
    (segment.moved ≡ []) × (segment.offset + len segment < 2 ^ 64) × (len segment < 2 ^ 32)

-- The bytes of a file at the places of the segments.
abbrev pub wanted : (ℕ → ℕ) → List IoSegment → Bytes
wanted cell [] = []
wanted cell (segment ∷ segments) =
    read_cells cell segment.offset (len segment) ++ wanted cell segments

All-append_lists :
    {A : Type 0} (P : A → Type 0) (xs ys : List A) → All P xs → All P ys → All P (xs ++ ys)
All-append_lists P [] ys h k = k
All-append_lists P (x ∷ xs) ys (h, hs) k = (h, All-append_lists P xs ys hs k)

wanted-append :
    (cell : ℕ → ℕ) (xs ys : List IoSegment)
    → wanted cell (xs ++ ys) ≡ wanted cell xs ++ wanted cell ys
wanted-append cell [] ys = refl
wanted-append cell (x ∷ xs) ys =
    ap (λ t. read_cells cell x.offset (len x) ++ t) (wanted-append cell xs ys)
    ∙ sym (append_assoc (read_cells cell x.offset (len x)) (wanted cell xs) (wanted cell ys))

split_loop_lem :
    (fuel chunk offset done : ℕ) (bytes : Bytes) (cell : ℕ → ℕ)
    → 0 < chunk
    → chunk < 2 ^ 32
    → length bytes ≤ fuel
    → offset + done + length bytes < 2 ^ 64
    → (wanted cell (split_loop fuel chunk offset done bytes)
        ≡ read_cells cell (offset + done) (length bytes))
      × All IsFresh (split_loop fuel chunk offset done bytes)
unfolding split_loop
split_loop_lem zero chunk offset done [] cell some word enough fits = (refl, tt)
split_loop_lem zero chunk offset done (b ∷ bytes) cell some word enough fits = absurd (omega arith)
split_loop_lem (suc fuel) chunk offset done bytes cell positive word enough fits =
    elim (Bool-cases (length bytes == 0)) [
      | inl empty ↦ rw empty (ap (read_cells cell (offset + done)) (sym (==→eq _ _ empty)), tt)
      | inr more ↦
          let n = min (length bytes) chunk in
          let at : add64 offset done ≡ offset + done = omega arith in
          let taken = length-take n bytes in
          let dropped = length-drop n bytes in
          let progress : 0 < n = omega (arith, ==→ne _ _ more) in
          let rest =
            split_loop_lem fuel chunk offset (done + n) (drop n bytes) cell positive word
              (omega (arith, dropped, progress)) (omega (arith, dropped)) in
          rw more (
            (λ i.
                  read_cells cell (at i) (whole taken i)
                  ++ (rest.0 ∙ ap (λ o. read_cells cell o (length (drop n bytes))) (assoc n)) i)
                ∙ sym (read_cells-append cell (offset + done) n (length (drop n bytes)))
                ∙ ap (read_cells cell (offset + done)) (omega (arith, dropped)),
            ((refl, omega (arith, at, taken), omega (arith, taken, word)), rest.1),
          )
    ]
  where
    whole :
        length (take (min (length bytes) chunk) bytes)
          ≡ min (min (length bytes) chunk) (length bytes)
        → length (take (min (length bytes) chunk) bytes) ≡ min (length bytes) chunk
    whole e = omega (arith, e)

    assoc : (n : ℕ) → offset + (done + n) ≡ offset + done + n
    assoc n = omega arith

-- The memory of a request ends below 2 ^ 64.
abbrev pub HasFit : ReadBuffer → Type 0
HasFit request = request.off + length request.buf < 2 ^ 64

-- The bytes of the file that a request asks for.
abbrev pub file_bytes : File → ReadBuffer → Bytes
file_bytes file request = read_cells file.cell request.off (length request.buf)

-- The segments of the requests are fresh, and cover what was asked for.
pub read_segments_lem :
    (chunk : ℕ) (requests : List ReadBuffer) (file : File)
    → 0 < chunk
    → chunk < 2 ^ 32
    → All HasFit requests
    → (wanted file.cell (read_segments chunk requests) ≡ joined (map (file_bytes file) requests))
      × All IsFresh (read_segments chunk requests)
unfolding read_segments split
read_segments_lem chunk [] file some word h = (refl, tt)
read_segments_lem chunk (request ∷ rest) file positive word (h, hs) =
    let memory = request.buf in
    let one =
      split_loop_lem (length memory) chunk request.off 0 memory file.cell positive word
        (omega arith) (omega (arith, h)) in
    let others = read_segments_lem chunk rest file positive word hs in
    (
      wanted-append file.cell (split_loop (length memory) chunk request.off 0 memory)
            (read_segments chunk rest)
          ∙ (λ i.
              (one.0 ∙ (λ j. read_cells file.cell (none_done request.off j) (length memory))) i
              ++ others.0 i),
      All-append_lists IsFresh _ (read_segments chunk rest) one.1 others.1,
    )
  where
    none_done : (o : ℕ) → o + 0 ≡ o
    none_done o = omega arith
