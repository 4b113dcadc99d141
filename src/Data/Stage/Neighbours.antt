-- ===== src/Data/Stage/Neighbours.antt =====
-- Staged writes beside one that changes: they stay on pages of their own.
use uol_ms_project.Prelude.{
  ℕ, ◌+◌, ◌≤◌, ◌<◌, ◌≡◌, ◌⊎◌, inl, inr, subst, List, [], ◌∷◌, ◌++◌, All, arith,
}
use uol_ms_project.Format.{page_up}
use uol_ms_project.Data.{StagedWrite, base, end_of}
use uol_ms_project.Data.View.{stop, page_stop, IsStaged, Apart, AllApart, page_facts}
use uol_ms_project.Data.Stage.Parts.{Clear}

module _ {ℓ κ} {A : Type ℓ} (P : A → Type κ) where
  -- One element of a list changed.
  pub All-replace : (bs es : List A) (x y : A) → P y → All P (bs ++ x ∷ es) → All P (bs ++ y ∷ es)
  All-replace [] es x y p (q, qs) = (p, qs)
  All-replace (b ∷ bs) es x y p (q, qs) = (q, All-replace bs es x y p qs)

  pub All-at : (bs es : List A) (x : A) → All P (bs ++ x ∷ es) → P x
  All-at [] es x (q, qs) = q
  All-at (b ∷ bs) es x (q, qs) = All-at bs es x qs

  pub All-behind : (bs es : List A) (x : A) → All P (bs ++ x ∷ es) → All P es
  All-behind [] es x (q, qs) = qs
  All-behind (b ∷ bs) es x (q, qs) = All-behind bs es x qs

  pub All-before : (bs es : List A) (x : A) → All P (bs ++ x ∷ es) → All P bs
  All-before [] es x h = tt
  All-before (b ∷ bs) es x (q, qs) = (q, All-before bs es x qs)

pub Apart-sym : (w v : StagedWrite) → Apart w v → Apart v w
Apart-sym w v (inl h) = inr h
Apart-sym w v (inr h) = inl h

pub AllApart-replace :
    (bs es : List StagedWrite) (x y : StagedWrite)
    → All (Apart y) bs
    → All (Apart y) es
    → AllApart (bs ++ x ∷ es)
    → AllApart (bs ++ y ∷ es)
AllApart-replace [] es x y before behind (a, rest) = (behind, rest)
AllApart-replace (b ∷ bs) es x y (p, before) behind (a, rest) = (
  All-replace (Apart b) bs es x y (Apart-sym y b p) a,
  AllApart-replace bs es x y before behind rest,
)

-- Staged writes whose pages do not meet those from the base of `w` to its end.
pub Clear-Apart :
    (w : StagedWrite) (cell : ℕ → ℕ) (vs : List StagedWrite)
    → All (IsStaged cell) vs
    → All (Clear (base w) (page_stop w)) vs
    → All (Apart w) vs
Clear-Apart w cell [] st h = tt
Clear-Apart w cell (v ∷ vs) (s, st) (inl before, h) = (inl before, Clear-Apart w cell vs st h)
Clear-Apart w cell (v ∷ vs) (s, st) (inr after, h) =
    let plain : end_of v ≡ stop v = omega (arith, s.start, s.bound) in
    (inr (subst (λ e. page_up e ≤ base w) plain after), Clear-Apart w cell vs st h)

-- The bytes from `off` on are then outside those staged writes.
pub Apart-outside :
    (w : StagedWrite) (off n : ℕ) (cell : ℕ → ℕ) (vs : List StagedWrite)
    → base w ≤ off
    → off + n ≤ page_stop w
    → All (IsStaged cell) vs
    → All (Apart w) vs
    → All (λ v. (off + n ≤ base v) ⊎ (stop v ≤ off)) vs
Apart-outside w off n cell [] l m st h = tt
Apart-outside w off n cell (v ∷ vs) l m (s, st) (inl before, h) =
    (inl (omega arith), Apart-outside w off n cell vs l m st h)
Apart-outside w off n cell (v ∷ vs) l m (s, st) (inr after, h) =
    (inr (omega (arith, page_facts v s.start s.bound)), Apart-outside w off n cell vs l m st h)

-- So is one byte of its pages.
pub Apart-outside_at :
    (w : StagedWrite) (i : ℕ) (cell : ℕ → ℕ) (vs : List StagedWrite)
    → base w ≤ i
    → i < page_stop w
    → All (IsStaged cell) vs
    → All (Apart w) vs
    → All (λ v. (i < base v) ⊎ (stop v ≤ i)) vs
Apart-outside_at w i cell [] l m st h = tt
Apart-outside_at w i cell (v ∷ vs) l m (s, st) (inl before, h) =
    (inl (omega arith), Apart-outside_at w i cell vs l m st h)
Apart-outside_at w i cell (v ∷ vs) l m (s, st) (inr after, h) =
    (inr (omega (arith, page_facts v s.start s.bound)), Apart-outside_at w i cell vs l m st h)
