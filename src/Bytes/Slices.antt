-- ===== src/Bytes/Slices.antt =====
-- What a copy into a slice changes: exactly the bytes of its range.
use uol_ms_project.Prelude.{
  ℕ, zero, suc, ◌+◌, ◌-◌, ◌≤◌, ◌≡◌, refl, sym, ap, ◌∙◌, [], ◌∷◌, ◌++◌, length, take, drop, slice,
  length-drop, arith,
}
use uol_ms_project.Bytes.{Bytes, put_at}
use mathlib.Core.List.{append-nil}

pub length-put_at : (off : ℕ) (src out : Bytes) → length (put_at off src out) ≡ length out
unfolding put_at
length-put_at off [] out = refl
length-put_at off (b ∷ bs) [] = refl
length-put_at zero (b ∷ bs) (x ∷ out) = ap suc (length-put_at zero bs out)
length-put_at (suc off) (b ∷ bs) (x ∷ out) = ap suc (length-put_at off (b ∷ bs) out)

-- The range that was written.
pub take-put_at_self :
    (src out : Bytes) → length src ≤ length out → take (length src) (put_at 0 src out) ≡ src
unfolding put_at
take-put_at_self [] out h = refl
take-put_at_self (b ∷ bs) [] h = absurd (omega arith)
take-put_at_self (b ∷ bs) (x ∷ out) h = ap (λ t. b ∷ t) (take-put_at_self bs out (omega arith))

-- A prefix that ends before the range.
pub take-put_at_before :
    (n off : ℕ) (src out : Bytes) → n ≤ off → take n (put_at off src out) ≡ take n out
unfolding put_at
take-put_at_before zero off src out h = refl
take-put_at_before (suc n) off [] out h = refl
take-put_at_before (suc n) off (b ∷ bs) [] h = refl
take-put_at_before (suc n) zero (b ∷ bs) (x ∷ out) h = absurd (omega arith)
take-put_at_before (suc n) (suc off) (b ∷ bs) (x ∷ out) h =
    ap (λ t. x ∷ t) (take-put_at_before n off (b ∷ bs) out (omega arith))

-- A suffix that begins after the range.
pub drop-put_at_after :
    (n off : ℕ) (src out : Bytes) → off + length src ≤ n → drop n (put_at off src out) ≡ drop n out
unfolding put_at
drop-put_at_after n off [] out h = refl
drop-put_at_after zero off (b ∷ bs) [] h = refl
drop-put_at_after (suc n) off (b ∷ bs) [] h = refl
drop-put_at_after zero off (b ∷ bs) (x ∷ out) h = absurd (omega arith)
drop-put_at_after (suc n) zero (b ∷ bs) (x ∷ out) h = drop-put_at_after n zero bs out (omega arith)
drop-put_at_after (suc n) (suc off) (b ∷ bs) (x ∷ out) h =
    drop-put_at_after n off (b ∷ bs) out (omega arith)

-- A suffix that begins at or before the range holds the copy, shifted.
pub drop-put_at_before :
    (n off : ℕ) (src out : Bytes)
    → n ≤ off
    → drop n (put_at off src out) ≡ put_at (off - n) src (drop n out)
unfolding put_at
drop-put_at_before n off [] out h = refl
drop-put_at_before zero zero (b ∷ bs) out h = refl
drop-put_at_before zero (suc off) (b ∷ bs) out h =
    let e : suc off - 0 ≡ suc off = omega arith in rw e
drop-put_at_before (suc n) off (b ∷ bs) [] h = refl
drop-put_at_before (suc n) zero (b ∷ bs) (x ∷ out) h = absurd (omega arith)
drop-put_at_before (suc n) (suc off) (b ∷ bs) (x ∷ out) h =
    ground (arith, drop-put_at_before n off (b ∷ bs) out (omega arith))

-- A slice that is the range, and slices beside it.
pub slice-put_at_self :
    (off to : ℕ) (src out : Bytes)
    → to ≡ off + length src
    → off + length src ≤ length out
    → slice off to (put_at off src out) ≡ src
slice-put_at_self off to src out e h =
    let at_zero : off - off ≡ 0 = omega arith in
    let size : to - off ≡ length src = omega arith in
    rw (drop-put_at_before off off src out (omega arith), at_zero, size)
      (take-put_at_self src (drop off out) (omega (arith, length-drop off out)))

pub slice-put_at_before :
    (from to off : ℕ) (src out : Bytes)
    → from ≤ off
    → to ≤ off
    → slice from to (put_at off src out) ≡ slice from to out
slice-put_at_before from to off src out hf h =
    rw (drop-put_at_before from off src out hf)
      (take-put_at_before (to - from) (off - from) src (drop from out) (omega arith))

pub slice-put_at_after :
    (from to off : ℕ) (src out : Bytes)
    → off + length src ≤ from
    → slice from to (put_at off src out) ≡ slice from to out
slice-put_at_after from to off src out h = rw (drop-put_at_after from off src out h)

-- What precedes the range, and then the range.
pub take-put_at :
    (n off : ℕ) (src out : Bytes)
    → n ≡ off + length src
    → n ≤ length out
    → take n (put_at off src out) ≡ take off out ++ src
unfolding put_at
take-put_at n off [] out e h =
    let same : n ≡ off = omega arith in rw same (sym (append-nil (take off out)))
take-put_at n off (b ∷ bs) [] e h = absurd (omega arith)
take-put_at zero off (b ∷ bs) (x ∷ out) e h = absurd (omega arith)
take-put_at (suc n) zero (b ∷ bs) (x ∷ out) e h =
    ap (λ t. b ∷ t) (take-put_at n zero bs out (omega arith) (omega arith))
take-put_at (suc n) (suc off) (b ∷ bs) (x ∷ out) e h =
    ap (λ t. x ∷ t) (take-put_at n off (b ∷ bs) out (omega arith) (omega arith))

take-nil : (n : ℕ) → take {A = ℕ} n [] ≡ []
take-nil zero = refl
take-nil (suc n) = refl

-- Neighbouring slices join.
pub take-slice :
    (from to : ℕ) (xs : Bytes) → from ≤ to → take from xs ++ slice from to xs ≡ take to xs
take-slice zero to xs h = let same : to - 0 ≡ to = omega arith in rw same
take-slice (suc from) zero xs h = absurd (omega arith)
take-slice (suc from) (suc to) [] h = take-nil (suc to - suc from)
take-slice (suc from) (suc to) (x ∷ xs) h =
    let same : suc to - suc from ≡ to - from = omega arith in
    rw same (ap (λ t. x ∷ t) (take-slice from to xs (omega arith)))

-- Writing right behind a known prefix.
pub put_at-prefix :
    (n m : ℕ) (src out pre : Bytes)
    → take n out ≡ pre
    → m ≡ n + length src
    → m ≤ length out
    → take m (put_at n src out) ≡ pre ++ src
put_at-prefix n m src out pre p e h = take-put_at m n src out e h ∙ ap (λ t. t ++ src) p
