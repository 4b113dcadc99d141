-- ===== src/Io/Parts.antt =====
-- Reads and writes of a file in two parts, past its end, and of nothing.
use uol_ms_project.Prelude.{
  get_or, ◌-◌, refl, sym, ◌∙◌, ap, length-append, fun_ext, replicate, ◌≡◌, ◌<◌, ◌+◌, ◌≤◌, ℕ, zero,
  suc, [], ◌∷◌, ◌++◌, length, arith,
}
use uol_ms_project.Bytes.{Bytes}
use uol_ms_project.Io.{File, IsFile, read_cells, overlay, size_with, write_cells}
use uol_ms_project.Io.Overlay.{overlay-append, overlay_in}

-- A read in two parts.
pub read_cells-append :
    (cell : ℕ → ℕ) (off n m : ℕ)
    → read_cells cell off (n + m) ≡ read_cells cell off n ++ read_cells cell (off + n) m
read_cells-append cell off zero m =
    let count : 0 + m ≡ m = omega arith in
    let here : off + 0 ≡ off = omega arith in rw (count, here) refl
read_cells-append cell off (suc n) m =
    let count : suc n + m ≡ suc (n + m) = omega arith in
    let there : off + suc n ≡ off + 1 + n = omega arith in
    rw (count, there) (ap (λ t. cell off ∷ t) (read_cells-append cell (off + 1) n m))

-- Past the end of a file there are zeros.
pub read_cells-past :
    (file : File) (off n : ℕ)
    → IsFile file
    → file.size ≤ off
    → replicate n 0 ≡ read_cells file.cell off n
read_cells-past file off zero h past = refl
read_cells-past file off (suc n) h past =
    ap (λ t. 0 ∷ t) (read_cells-past file (off + 1) n h (omega arith))
    ∙ ap (λ c. c ∷ read_cells file.cell (off + 1) n) (sym (h off past))

File-eq :
    (file : File) (f g : ℕ → ℕ) (m n : ℕ)
    → f ≡ g
    → m ≡ n
    → record file { cell = f; size = m } ≡ record file { cell = g; size = n }
File-eq file f g m n p q =
    ap (λ (c : ℕ → ℕ). record file { cell = c; size = m }) p
    ∙ ap (λ (k : ℕ). record file { cell = g; size = k }) q

size_with-append :
    (size off : ℕ) (xs ys : Bytes)
    → size_with size off (xs ++ ys) ≡ size_with (size_with size off xs) (off + length xs) ys
size_with-append size off [] [] = refl
size_with-append size off [] (y ∷ ys) = omega arith
size_with-append size off (x ∷ xs) [] = omega (arith, length-append xs [])
size_with-append size off (x ∷ xs) (y ∷ ys) = omega (arith, length-append xs (y ∷ ys))

-- A write in two parts.
pub write_cells-append :
    (off : ℕ) (xs ys : Bytes) (file : File)
    → write_cells (off + length xs) ys (write_cells off xs file) ≡ write_cells off (xs ++ ys) file
write_cells-append off xs ys file =
    File-eq file _ _ _ _ (fun_ext (λ i. sym (overlay-append off xs ys file.cell i)))
      (sym (size_with-append file.size off xs ys))

pub write_cells-nil : (off : ℕ) (file : File) → file ≡ write_cells off [] file
write_cells-nil off file =
    File-eq file file.cell (overlay off [] file.cell) file.size file.size
      (fun_ext (λ i. ground arith)) refl

-- Reading where bytes lie gives them.
pub read_cells-bytes :
    (cell : ℕ → ℕ) (off : ℕ) (bytes : Bytes)
    → ((j : ℕ) → j < length bytes → cell (off + j) ≡ get_or bytes j 0)
    → read_cells cell off (length bytes) ≡ bytes
read_cells-bytes cell off [] h = refl
read_cells-bytes cell off (b ∷ bytes) h =
    let first : off ≡ off + 0 = omega arith in
    ap (λ c. c ∷ read_cells cell (off + 1) (length bytes)) (ap cell first ∙ h 0 (omega arith))
    ∙ ap (λ t. b ∷ t)
        (read_cells-bytes cell (off + 1) bytes (λ j k.
          let next : off + 1 + j ≡ off + suc j = omega arith in
          ap cell next ∙ h (suc j) (omega arith)))

pub read_cells-overlay :
    (off : ℕ) (bytes : Bytes) (f g : ℕ → ℕ)
    → ((i : ℕ) → f i ≡ overlay off bytes g i)
    → read_cells f off (length bytes) ≡ bytes
read_cells-overlay off bytes f g h = read_cells-bytes f off bytes (λ j k.
    let index : off + j - off ≡ j = omega arith in
    h (off + j)
    ∙ overlay_in off bytes g (off + j) (omega arith) (omega arith)
    ∙ ap (λ i. get_or bytes i 0) index)
