-- ===== src/Crc32/Detect.antt =====
-- The checksum tells apart two byte strings that differ in one byte: no shift of the register
-- loses information, because the polynomial has its top bit set.
use uol_ms_project.Prelude.{
  ℕ, zero, suc, ◌/◌, ◌≡◌, ◌≢◌, sym, ap, ◌∙◌, bit_xor, [], ◌∷◌, ◌++◌, All, inl, inr, arith,
}
use uol_ms_project.Prelude.Bits.{
  bit_xor_twice, bit_xor_self, zero-bit_xor, bit_xor-lt, bit_xor_comm,
}
use uol_ms_project.Bytes.{Bytes, IsByte, IsU32}
use uol_ms_project.Bytes.Words.{All-append_left, All-append_right}
use uol_ms_project.Crc32.{crc32c_polynomial, bit_round, bit_rounds, crc32c}
use uol_ms_project.Crc32.Linear.{digit-cases, bit_round-carry, bit_rounds-bit_xor}
use uol_ms_project.Crc32.Slicing.{
  register, register-append, register-IsU32, bit_round-IsU32, bit_rounds-IsU32, crc32c-bitwise,
}

eq_of_bit_xor : (a b : ℕ) → bit_xor a b ≡ 0 → a ≡ b
eq_of_bit_xor a b e = sym (bit_xor_twice a b) ∙ ap (λ t. bit_xor t b) e ∙ zero-bit_xor b

bit_xor_cancel : (a b m : ℕ) → bit_xor a m ≡ bit_xor b m → a ≡ b
bit_xor_cancel a b m e = sym (bit_xor_twice a m) ∙ ap (λ t. bit_xor t m) e ∙ bit_xor_twice b m

bit_round-zero : (a : ℕ) → IsU32 a → bit_round a ≡ 0 → a ≡ 0
bit_round-zero a h e = elim (digit-cases a) [
  | inl even ↦
      let half : a / 2 ≡ 0 = eq_of_bit_xor (a / 2) 0 (rw (bit_round-carry, even) at e) in
      omega arith
  | inr odd ↦
      let half : a / 2 ≡ crc32c_polynomial =
        eq_of_bit_xor (a / 2) crc32c_polynomial (rw (bit_round-carry, odd) at e) in
      omega arith
]

bit_rounds-zero : (n a : ℕ) → IsU32 a → bit_rounds n a ≡ 0 → a ≡ 0
unfolding bit_rounds
bit_rounds-zero zero a h e = e
bit_rounds-zero (suc n) a h e =
    bit_round-zero a h (bit_rounds-zero n (bit_round a) (bit_round-IsU32 a h) e)

pub bit_rounds-injective : (n a b : ℕ) → IsU32 a → IsU32 b → bit_rounds n a ≡ bit_rounds n b → a ≡ b
bit_rounds-injective n a b ha hb e = eq_of_bit_xor a b (
    bit_rounds-zero n (bit_xor a b) (bit_xor-lt 32 a b ha hb) (
      bit_rounds-bit_xor n a b
      ∙ ap (λ t. bit_xor t (bit_rounds n b)) e
      ∙ bit_xor_self (bit_rounds n b)))

step-IsU32 : (crc b : ℕ) → IsU32 crc → IsByte b → IsU32 (bit_xor crc b)
step-IsU32 crc b h hb = bit_xor-lt 32 crc b h (omega arith)

register-injective :
    (a b : ℕ) (bs : Bytes)
    → IsU32 a
    → IsU32 b
    → All IsByte bs
    → register a bs ≡ register b bs
    → a ≡ b
register-injective a b [] ha hb h e = e
register-injective a b (x ∷ bs) ha hb (hx, hbs) e = bit_xor_cancel a b x (
    bit_rounds-injective 8 (bit_xor a x) (bit_xor b x) (step-IsU32 a x ha hx) (step-IsU32 b x hb hx)
      (register-injective (bit_rounds 8 (bit_xor a x)) (bit_rounds 8 (bit_xor b x)) bs
        (bit_rounds-IsU32 8 (bit_xor a x) (step-IsU32 a x ha hx))
        (bit_rounds-IsU32 8 (bit_xor b x) (step-IsU32 b x hb hx)) hbs e))

crc32c-injective_byte :
    (before after : Bytes) (b c : ℕ)
    → All IsByte (before ++ b ∷ after)
    → All IsByte (before ++ c ∷ after)
    → crc32c (before ++ b ∷ after) ≡ crc32c (before ++ c ∷ after)
    → b ≡ c
crc32c-injective_byte before after b c hb hc e =
    let r = register 0xffffffff before in
    let hr : IsU32 r =
      register-IsU32 0xffffffff before (omega arith)
        (All-append_left IsByte before (b ∷ after) hb) in
    let (byte_b, rest) = All-append_right IsByte before (b ∷ after) hb in
    let (byte_c, _) = All-append_right IsByte before (c ∷ after) hc in
    let registers : register r (b ∷ after) ≡ register r (c ∷ after) =
      sym (register-append 0xffffffff before (b ∷ after))
      ∙ bit_xor_cancel (register 0xffffffff (before ++ b ∷ after)) _ 0xffffffff (
          sym (crc32c-bitwise (before ++ b ∷ after) hb)
          ∙ e
          ∙ crc32c-bitwise (before ++ c ∷ after) hc)
      ∙ register-append 0xffffffff before (c ∷ after) in
    let words : bit_xor r b ≡ bit_xor r c =
      bit_rounds-injective 8 (bit_xor r b) (bit_xor r c) (step-IsU32 r b hr byte_b)
        (step-IsU32 r c hr byte_c)
        (register-injective (bit_rounds 8 (bit_xor r b)) (bit_rounds 8 (bit_xor r c)) after
          (bit_rounds-IsU32 8 (bit_xor r b) (step-IsU32 r b hr byte_b))
          (bit_rounds-IsU32 8 (bit_xor r c) (step-IsU32 r c hr byte_c)) rest registers) in
    bit_xor_cancel b c r (bit_xor_comm b r ∙ words ∙ bit_xor_comm r c)

-- Byte strings that differ in exactly one byte have different checksums.
pub crc32c-detects_byte :
    (before after : Bytes) (b c : ℕ)
    → All IsByte (before ++ b ∷ after)
    → All IsByte (before ++ c ∷ after)
    → b ≢ c
    → crc32c (before ++ b ∷ after) ≢ crc32c (before ++ c ∷ after)
crc32c-detects_byte before after b c hb hc other e =
    other (crc32c-injective_byte before after b c hb hc e)
