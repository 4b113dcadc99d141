-- ===== src/Prelude/Bits/Masks.antt =====
-- Masks as arithmetic, at every width: low digits, high digits, and a bit above a word.
use Prim.Native.Nat.{ℕ, zero, suc, ◌+◌, ◌-◌, ◌*◌, ◌/◌, ◌%◌, ◌^◌, ◌<◌, bit_and, bit_or, bit_xor}
use mathlib.Core.Path.{◌≡◌, ap, sym, ◌∙◌}
use native.Mathlib.Omega.{arith}
use native.Mathlib.Nat.{pow-suc, one-le-pow, div-add-mod', mod-lt}
use uol_ms_project.Prelude.Bits.{
  bit_and_digit, bit_or_digit, zero-bit_or, bit_xor_digit, zero-bit_xor,
}

times-pow-suc : (q k : ℕ) → q * 2 ^ suc k ≡ q * 2 ^ k + q * 2 ^ k
times-pow-suc q k = omega (arith, ap (λ (t : ℕ). q * t) (pow-suc 2 k))

bit_and-zero_below : (n a : ℕ) → a < suc n → bit_and a 0 ≡ 0
bit_and-zero_below n zero h = omega (arith, bit_and_digit 0 0)
bit_and-zero_below zero (suc a) h = absurd (omega arith)
bit_and-zero_below (suc n) (suc a) h =
    omega (arith, bit_and_digit (suc a) 0, bit_and-zero_below n (suc a / 2) (omega arith))

pub bit_and-zero : (a : ℕ) → bit_and a 0 ≡ 0
bit_and-zero a = bit_and-zero_below a a (omega arith)

bit_and_low_part : (k q r : ℕ) → r < 2 ^ k → bit_and (q * 2 ^ k + r) (2 ^ k - 1) ≡ r
bit_and_low_part zero q r h = bit_and-zero (q * 1 + r) ∙ omega arith
bit_and_low_part (suc k) q r h = ground (
  arith,
  bit_and_digit (q * 2 ^ suc k + r) (2 ^ suc k - 1),
  times-pow-suc q k,
  pow-suc 2 k,
  one-le-pow k 2,
  bit_and_low_part k q (r / 2) (omega (arith, pow-suc 2 k)),
)

-- A mask of `k` low digits is the remainder by `2 ^ k`.
pub bit_and_low : (k a : ℕ) → bit_and a (2 ^ k - 1) ≡ a % 2 ^ k
bit_and_low k a =
    ap (λ t. bit_and t (2 ^ k - 1)) (sym (div-add-mod' a (2 ^ k)))
    ∙ bit_and_low_part k (a / 2 ^ k) (a % 2 ^ k) (mod-lt a (one-le-pow k 2 (omega arith)))

bit_and_high_part :
    (k q r m : ℕ) → r < 2 ^ k → bit_and (q * 2 ^ k + r) (m * 2 ^ k) ≡ bit_and q m * 2 ^ k
bit_and_high_part zero zero zero m h = ground arith
bit_and_high_part zero (suc q) zero m h = ground arith
bit_and_high_part zero q (suc r) m h = absurd (omega arith)
bit_and_high_part (suc k) q r m h = ground (
  arith,
  bit_and_digit (q * 2 ^ suc k + r) (m * 2 ^ suc k),
  times-pow-suc q k,
  times-pow-suc m k,
  times-pow-suc (bit_and q m) k,
  pow-suc 2 k,
  bit_and_high_part k q (r / 2) m (omega (arith, pow-suc 2 k)),
)

-- A mask with `k` zeros below forgets `k` digits.
pub bit_and_high : (k a m : ℕ) → bit_and a (m * 2 ^ k) ≡ bit_and (a / 2 ^ k) m * 2 ^ k
bit_and_high k a m =
    ap (λ t. bit_and t (m * 2 ^ k)) (sym (div-add-mod' a (2 ^ k)))
    ∙ bit_and_high_part k (a / 2 ^ k) (a % 2 ^ k) m (mod-lt a (one-le-pow k 2 (omega arith)))

-- A field set above the digits of `r`.
pub bit_or_above : (k r q : ℕ) → r < 2 ^ k → bit_or r (q * 2 ^ k) ≡ r + q * 2 ^ k
bit_or_above zero zero q h = zero-bit_or (q * 1) ∙ omega arith
bit_or_above zero (suc r) q h = absurd (omega arith)
bit_or_above (suc k) r q h = ground (
  arith,
  bit_or_digit r (q * 2 ^ suc k),
  times-pow-suc q k,
  bit_or_above k (r / 2) q (omega (arith, pow-suc 2 k)),
)

pub bit_xor_above : (k r q : ℕ) → r < 2 ^ k → bit_xor r (q * 2 ^ k) ≡ r + q * 2 ^ k
bit_xor_above zero zero q h = zero-bit_xor (q * 1) ∙ omega arith
bit_xor_above zero (suc r) q h = absurd (omega arith)
bit_xor_above (suc k) r q h = ground (
  arith,
  bit_xor_digit r (q * 2 ^ suc k),
  times-pow-suc q k,
  bit_xor_above k (r / 2) q (omega (arith, pow-suc 2 k)),
)
