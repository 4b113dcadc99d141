-- ===== src/Crc32/Linear.antt =====
-- The bit rounds are linear over xor, and a table entry is a number of rounds.
use uol_ms_project.Prelude.{
  ℕ, zero, suc, ◌+◌, ◌*◌, ◌/◌, ◌%◌, ◌^◌, ◌≡◌, refl, sym, ap, ◌∙◌, bit_and, bit_xor, ◌==◌,
  Bool-cases, ==→eq, ==→ne, inl, inr, ◌⊎◌, arith,
}
use uol_ms_project.Prelude.Bits.{
  half-bit_xor, parity-bit_xor, bit_xor_interchange, bit_xor-zero, bit_xor_comm,
}
use uol_ms_project.Prelude.Bits.Masks.{bit_and_low, bit_xor_above}
use uol_ms_project.Crc32.{crc32c_polynomial, bit_round, bit_rounds, first_table, table}
use native.Mathlib.Nat.{pow-suc, zero-add, suc-add}

-- What a round adds to the shifted word.
abbrev pub carry : ℕ → ℕ
carry zero = 0
carry (suc n) = crc32c_polynomial

pub bit_round-carry : (a : ℕ) → bit_round a ≡ bit_xor (a / 2) (carry (a % 2))
unfolding bit_round
bit_round-carry a = elim (Bool-cases (bit_and a 1 == 0)) [
  | inl e ↦
      let even : a % 2 ≡ 0 = sym (bit_and_low 1 a) ∙ ==→eq _ _ e in
      rw (e, even) (sym (bit_xor-zero (a / 2)))
  | inr e ↦ let odd : a % 2 ≡ 1 = omega (arith, bit_and_low 1 a, ==→ne _ _ e) in rw (e, odd) refl
]

pub digit-cases : (a : ℕ) → (a % 2 ≡ 0) ⊎ (a % 2 ≡ 1)
digit-cases a = omega arith

carry-add : (a b : ℕ) → bit_xor (carry (a % 2)) (carry (b % 2)) ≡ carry ((a + b) % 2)
carry-add a b = elim (digit-cases a) [
  | inl x ↦ elim (digit-cases b) [
    | inl y ↦ let z : (a + b) % 2 ≡ 0 = omega arith in rw (x, y, z) refl
    | inr y ↦ let z : (a + b) % 2 ≡ 1 = omega arith in rw (x, y, z) refl
  ]
  | inr x ↦ elim (digit-cases b) [
    | inl y ↦ let z : (a + b) % 2 ≡ 1 = omega arith in rw (x, y, z) refl
    | inr y ↦ let z : (a + b) % 2 ≡ 0 = omega arith in rw (x, y, z) refl
  ]
]

pub bit_round-bit_xor : (a b : ℕ) → bit_round (bit_xor a b) ≡ bit_xor (bit_round a) (bit_round b)
bit_round-bit_xor a b =
    rw
      (
        bit_round-carry (bit_xor a b),
        bit_round-carry a,
        bit_round-carry b,
        half-bit_xor a b,
        parity-bit_xor a b,
      )
      (rw (← carry-add a b) (bit_xor_interchange (a / 2) (b / 2) (carry (a % 2)) (carry (b % 2))))

pub bit_rounds-bit_xor :
    (n a b : ℕ) → bit_rounds n (bit_xor a b) ≡ bit_xor (bit_rounds n a) (bit_rounds n b)
unfolding bit_rounds
bit_rounds-bit_xor zero a b = refl
bit_rounds-bit_xor (suc n) a b =
    ap (bit_rounds n) (bit_round-bit_xor a b) ∙ bit_rounds-bit_xor n (bit_round a) (bit_round b)

pub bit_rounds-add : (n m a : ℕ) → bit_rounds (n + m) a ≡ bit_rounds m (bit_rounds n a)
unfolding bit_rounds
bit_rounds-add zero m a = ap (λ k. bit_rounds k a) (zero-add m)
bit_rounds-add (suc n) m a =
    ap (λ k. bit_rounds k a) (suc-add n m) ∙ bit_rounds-add n m (bit_round a)

bit_round-double : (a : ℕ) → bit_round (a + a) ≡ a
bit_round-double a =
    let even : (a + a) % 2 ≡ 0 = omega arith in
    let half : (a + a) / 2 ≡ a = omega arith in
    rw (bit_round-carry (a + a), even, half) (bit_xor-zero a)

-- A word that was shifted left is shifted back: no round meets a set bit.
pub bit_rounds-shift : (n a : ℕ) → bit_rounds n (a * 2 ^ n) ≡ a
unfolding bit_rounds
bit_rounds-shift zero a = omega arith
bit_rounds-shift (suc n) a =
    let twice : a * 2 ^ suc n ≡ a * 2 ^ n + a * 2 ^ n =
      omega (arith, ap (λ (t : ℕ). a * t) (pow-suc 2 n)) in
    rw (twice, bit_round-double (a * 2 ^ n)) (bit_rounds-shift n a)

-- Eight rounds shift out the low byte and add its table entry.
pub bit_rounds-eight : (a : ℕ) → bit_rounds 8 a ≡ bit_xor (a / 2 ^ 8) (first_table (bit_and a 0xff))
unfolding first_table
bit_rounds-eight a =
    let split : a ≡ bit_xor (a % 256) (a / 256 * 2 ^ 8) =
      omega (arith, bit_xor_above 8 (a % 256) (a / 256) (omega arith)) in
    ap (bit_rounds 8) split
    ∙ bit_rounds-bit_xor 8 (a % 256) (a / 256 * 2 ^ 8)
    ∙ ap (bit_xor (bit_rounds 8 (a % 256))) (bit_rounds-shift 8 (a / 256))
    ∙ bit_xor_comm (bit_rounds 8 (a % 256)) (a / 256)
    ∙ ap (λ t. bit_xor (a / 256) (bit_rounds 8 t)) (sym (bit_and_low 8 a))

-- Table `k` holds the effect of `8 * (k + 1)` rounds on a byte.
pub table-bit_rounds : (k b : ℕ) → table k b ≡ bit_rounds (8 * suc k) b
unfolding table
table-bit_rounds zero b = unfold first_table in refl
table-bit_rounds (suc k) b =
    sym (bit_rounds-eight (table k b))
    ∙ ap (bit_rounds 8) (table-bit_rounds k b)
    ∙ sym (bit_rounds-add (8 * suc k) 8 b)
    ∙ ap (λ n. bit_rounds n b) {x = 8 * suc k + 8} {y = 8 * suc (suc k)} (omega arith)
