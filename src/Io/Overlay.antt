-- ===== src/Io/Overlay.antt =====
-- Laws of bytes laid over a file: where they show, how two layers commute, and what a layer over the
-- same bytes adds.
use uol_ms_project.Prelude.{
  ℕ, zero, suc, ◌+◌, ◌-◌, ◌≤◌, ◌<◌, ◌≡◌, ◌⊎◌, inl, inr, refl, ap, ◌∙◌, ◌&&◌, Bool-cases, List, [],
  ◌∷◌, ◌++◌, length, length-append, get_or, get_or-append, ltb, ltb→lt, ltb→le, leb, le→leb, lt→ltb,
  lt→leb, le→ltb, if◌then◌else◌, arith,
}
use uol_ms_project.Bytes.{Bytes}
use uol_ms_project.Io.{File, IsFile, read_cells, overlay, write_cells, WriteReq, write_requests}

-- Where an index lies, seen from `n` places at `off`.
pub data Place (off n i : ℕ) : Type 0 where
  below : i < off → Place off n i
  within : off ≤ i → i < off + n → Place off n i
  above : off + n ≤ i → Place off n i

pub place : (off n i : ℕ) → Place off n i
place off n i = elim (Bool-cases (ltb i off)) [
  | inl e ↦ below (ltb→lt i off e)
  | inr e ↦ elim (Bool-cases (ltb i (off + n))) [
    | inl k ↦ within (ltb→le i off e) (ltb→lt i (off + n) k)
    | inr k ↦ above (ltb→le i (off + n) k)
  ]
]

pub overlay_in :
    (off : ℕ) (bytes : Bytes) (cell : ℕ → ℕ) (i : ℕ)
    → off ≤ i
    → i < off + length bytes
    → overlay off bytes cell i ≡ get_or bytes (i - off) 0
overlay_in off bytes cell i h k = rw (le→leb off i h, lt→ltb i (off + length bytes) k)

pub overlay_below :
    (off : ℕ) (bytes : Bytes) (cell : ℕ → ℕ) (i : ℕ) → i < off → overlay off bytes cell i ≡ cell i
overlay_below off bytes cell i h = rw (lt→leb off i h)

pub overlay_above :
    (off : ℕ) (bytes : Bytes) (cell : ℕ → ℕ) (i : ℕ)
    → off + length bytes ≤ i
    → overlay off bytes cell i ≡ cell i
overlay_above off bytes cell i h = rw (le→ltb i (off + length bytes) h) (ground arith)

-- A layer depends on what is under it only at the same place.
pub overlay-cong :
    (off : ℕ) (bytes : Bytes) (f g : ℕ → ℕ) (i : ℕ)
    → f i ≡ g i
    → overlay off bytes f i ≡ overlay off bytes g i
overlay-cong off bytes f g i e =
    ap (λ t. if leb off i && ltb i (off + length bytes) then get_or bytes (i - off) 0 else t) e

-- Bytes side by side are two layers.
pub overlay-append :
    (off : ℕ) (xs ys : Bytes) (cell : ℕ → ℕ) (i : ℕ)
    → overlay off (xs ++ ys) cell i ≡ overlay (off + length xs) ys (overlay off xs cell) i
overlay-append off xs ys cell i =
    ground (arith, length-append xs ys, get_or-append xs ys (i - off) 0, index)
  where
    index : i - off - length xs ≡ i - (off + length xs)
    index = omega arith

-- Layers that do not meet commute.
pub overlay_comm :
    (a : ℕ) (xs : Bytes) (b : ℕ) (ys : Bytes) (cell : ℕ → ℕ) (i : ℕ)
    → (a + length xs ≤ b) ⊎ (b + length ys ≤ a)
    → overlay a xs (overlay b ys cell) i ≡ overlay b ys (overlay a xs cell) i
overlay_comm a xs b ys cell i apart = ground arith

-- A layer of what is there already changes nothing.
pub overlay_same :
    (off : ℕ) (bytes : Bytes) (cell : ℕ → ℕ) (i : ℕ)
    → ((j : ℕ) → j < length bytes → get_or bytes j 0 ≡ cell (off + j))
    → overlay off bytes cell i ≡ cell i
overlay_same off bytes cell i h = elim (place off (length bytes) i) [
  | below k ↦ overlay_below off bytes cell i k
  | within k m ↦ overlay_in off bytes cell i k m ∙ h (i - off) (omega arith) ∙ ap cell (back k)
  | above k ↦ overlay_above off bytes cell i k
]
  where
    back : off ≤ i → off + (i - off) ≡ i
    back k = omega arith

pub length-read_cells : (cell : ℕ → ℕ) (off n : ℕ) → length (read_cells cell off n) ≡ n
length-read_cells cell off zero = refl
length-read_cells cell off (suc n) = ap suc (length-read_cells cell (off + 1) n)

pub get_or-read_cells :
    (cell : ℕ → ℕ) (off n i : ℕ) → i < n → get_or (read_cells cell off n) i 0 ≡ cell (off + i)
get_or-read_cells cell off zero i h = absurd (omega arith)
get_or-read_cells cell off (suc n) zero h = ap cell (omega arith)
get_or-read_cells cell off (suc n) (suc i) h =
    get_or-read_cells cell (off + 1) n i (omega arith) ∙ ap cell (omega arith)

-- A write keeps a file a file.
pub write_cells-IsFile :
    (off : ℕ) (bytes : Bytes) (file : File) → IsFile file → IsFile (write_cells off bytes file)
write_cells-IsFile off [] file h i past = ground (arith, h i past)
write_cells-IsFile off (b ∷ bytes) file h i past =
    overlay_above off (b ∷ bytes) file.cell i (omega arith) ∙ h i (omega arith)

pub write_requests-IsFile :
    (requests : List WriteReq) (file : File) → IsFile file → IsFile (write_requests requests file)
write_requests-IsFile [] file h = h
write_requests-IsFile (request ∷ rest) file h =
    write_requests-IsFile rest (write_cells request.off request.buf file)
      (write_cells-IsFile request.off request.buf file h)
