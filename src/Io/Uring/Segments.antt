-- ===== src/Io/Uring/Segments.antt =====
-- The segments of a run, and the entries in its queue.
use uol_ms_project.Prelude.{
  length-drop, length-take, zero, suc, ◌^◌, ◌≢◌, sym, subst, take, get_or, set, ==→eq, ℕ, ◌+◌, ◌≤◌,
  ◌<◌, ◌≡◌, refl, ap, ◌∙◌, List, [], ◌∷◌, ◌++◌, length, length-append, ◌==◌, Bool-cases, inl, inr,
  arith,
}
use uol_ms_project.Io.{read_cells}
use uol_ms_project.Io.Parts.{read_cells-append}
use uol_ms_project.Io.Uring.{advanced, IoSegment, len, remove}
use uol_ms_project.Io.Uring.Reaches.{InFlight, here, there}
use uol_ms_project.Io.Uring.Bounds.{InFlight-cases}

pub get_or-set_same :
    {A : Type 0} (xs : List A) (i : ℕ) (v d : A) → i < length xs → get_or (set xs i v) i d ≡ v
get_or-set_same [] i v d h = absurd (omega arith)
get_or-set_same (x ∷ xs) zero v d h = refl
get_or-set_same (x ∷ xs) (suc i) v d h = get_or-set_same xs i v d (omega arith)

pub get_or-set_other :
    {A : Type 0} (xs : List A) (i j : ℕ) (v d : A) → j ≢ i → get_or (set xs i v) j d ≡ get_or xs j d
get_or-set_other [] i j v d h = refl
get_or-set_other (x ∷ xs) zero zero v d h = absurd (h refl)
get_or-set_other (x ∷ xs) zero (suc j) v d h = refl
get_or-set_other (x ∷ xs) (suc i) zero v d h = refl
get_or-set_other (x ∷ xs) (suc i) (suc j) v d h = get_or-set_other xs i j v d (omega arith)

pub InFlight-remove :
    (i id : ℕ) (queue : List ℕ) → i ≢ id → InFlight i queue → InFlight i (remove id queue)
InFlight-remove i id [] other f = f
InFlight-remove i id (k ∷ queue) other f = elim (Bool-cases (k == id)) [
  | inl same ↦ rw same (elim (InFlight-cases i k queue f) [
    | inl first ↦ absurd (other (sym first ∙ ==→eq k id same))
    | inr behind ↦ behind
  ])
  | inr apart ↦ rw apart (elim (InFlight-cases i k queue f) [
    | inl first ↦ subst (λ j. InFlight i (j ∷ remove id queue)) (sym first) (here (remove id queue))
    | inr behind ↦ there k (remove id queue) (InFlight-remove i id queue other behind)
  ])
]

pub InFlight-append : (i k : ℕ) (queue : List ℕ) → InFlight i queue → InFlight i (queue ++ k ∷ [])
InFlight-append i k [] f = elim f [ ]
InFlight-append i k (j ∷ queue) f = elim (InFlight-cases i j queue f) [
  | inl first ↦ subst (λ h. InFlight i (h ∷ queue ++ k ∷ [])) (sym first) (here (queue ++ k ∷ []))
  | inr behind ↦ there j (queue ++ k ∷ []) (InFlight-append i k queue behind)
]

pub InFlight-last : (i : ℕ) (queue : List ℕ) → InFlight i (queue ++ i ∷ [])
InFlight-last i [] = here []
InFlight-last i (k ∷ queue) = there k (queue ++ i ∷ []) (InFlight-last i queue)

-- A segment that was read as far as its pointer.
pub record IsPart (cell : ℕ → ℕ) (whole part : IoSegment) : Type 0 where
  pub offset : part.offset ≡ whole.offset + length part.moved
  pub size : length part.moved + len part ≡ len whole
  pub bytes : part.moved ≡ read_cells cell whole.offset (length part.moved)

-- The memory of the segment has the bytes of the file.
abbrev pub IsRead : (ℕ → ℕ) → IoSegment → IoSegment → Type 0
IsRead cell whole part = part.moved ++ part.under ≡ read_cells cell whole.offset (len whole)

-- A part whose last bytes arrived.
pub part-IsRead :
    (cell : ℕ → ℕ) (whole part : IoSegment)
    → IsPart cell whole part
    → part.under ≡ read_cells cell part.offset (len part)
    → IsRead cell whole part
part-IsRead cell whole part p e =
    (λ i. p.bytes i ++ (e ∙ ap (λ o. read_cells cell o (len part)) p.offset) i)
    ∙ sym (read_cells-append cell whole.offset (length part.moved) (len part))
    ∙ ap (read_cells cell whole.offset) p.size

pub advanced-IsPart :
    (cell : ℕ → ℕ) (n : ℕ) (whole part : IoSegment)
    → IsPart cell whole part
    → whole.offset + len whole < 2 ^ 64
    → n ≤ len part
    → take n part.under ≡ read_cells cell part.offset n
    → IsPart cell whole (advanced n part)
advanced-IsPart cell n whole part p fits small e =
    let moved : length (part.moved ++ take n part.under) ≡ length part.moved + n =
      omega (arith, length-append part.moved (take n part.under), length-take n part.under) in
    record {
      offset = omega (arith, p.offset, p.size, moved);
      size = omega (arith, p.size, moved, length-drop n part.under);
      bytes =
          (λ i. p.bytes i ++ (e ∙ ap (λ o. read_cells cell o n) p.offset) i)
          ∙ sym (read_cells-append cell whole.offset (length part.moved) n)
          ∙ ap (read_cells cell whole.offset) (sym moved);
    }
