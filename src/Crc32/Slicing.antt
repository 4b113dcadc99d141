-- ===== src/Crc32/Slicing.antt =====
-- The eight-table loop computes the CRC of one bit at a time.
use uol_ms_project.Prelude.{
  ℕ, zero, suc, ◌+◌, ◌*◌, ◌/◌, ◌%◌, ◌^◌, ◌<◌, ◌≡◌, refl, sym, ap, ◌∙◌, bit_and, bit_xor, [], ◌∷◌,
  ◌++◌, All, inl, inr, length, length-append, arith,
}
use uol_ms_project.Prelude.Bits.{bit_xor_comm, bit_xor_assoc, bit_xor-lt, bit_xor-zero}
use uol_ms_project.Prelude.Bits.Masks.{bit_and_low, bit_xor_above}
use uol_ms_project.Bytes.{Bytes, IsByte, IsU32, from_le}
use uol_ms_project.Bytes.Words.{from_le-lt, from_le-append, All-append}
use uol_ms_project.Crc32.{bit_round, bit_rounds, table, lookups, remainder_bytes, chunks, crc32c}
use uol_ms_project.Crc32.Linear.{
  carry, digit-cases, bit_round-carry, bit_rounds-bit_xor, bit_rounds-add, bit_rounds-shift,
  bit_rounds-eight, table-bit_rounds,
}

-- The specification: the register takes a byte by xor and then shifts eight times, and each shift
-- that drops a set bit adds the polynomial.
abbrev pub register : ℕ → Bytes → ℕ
register crc [] = crc
register crc (b ∷ bs) = register (bit_rounds 8 (bit_xor crc b)) bs

abbrev pub bitwise_crc32c : Bytes → ℕ
bitwise_crc32c bytes = bit_xor (register 0xffffffff bytes) 0xffffffff

-- A word of bytes is its low byte, xor the rest shifted by a byte.
low_byte : (b w : ℕ) → IsByte b → b + 256 * w ≡ bit_xor b (w * 2 ^ 8)
low_byte b w h = omega (arith, bit_xor_above 8 b w h)

rounds_word :
    (n b w : ℕ)
    → IsByte b
    → bit_rounds (8 * suc n) (b + 256 * w)
      ≡ bit_xor (bit_rounds (8 * suc n) b) (bit_rounds (8 * n) w)
rounds_word n b w h =
    let more : 8 * suc n ≡ 8 + 8 * n = omega arith in
    ap (bit_rounds (8 * suc n)) (low_byte b w h)
    ∙ bit_rounds-bit_xor (8 * suc n) b (w * 2 ^ 8)
    ∙ ap (bit_xor (bit_rounds (8 * suc n) b)) (
        rw (more, bit_rounds-add 8 (8 * n) (w * 2 ^ 8))
          (ap (bit_rounds (8 * n)) (bit_rounds-shift 8 w)))

-- The register after some bytes is one shift of their word.
register-word :
    (bs : Bytes) (crc : ℕ)
    → All IsByte bs
    → register crc bs ≡ bit_rounds (8 * length bs) (bit_xor crc (from_le bs))
unfolding from_le
register-word [] crc h = unfold bit_rounds in sym (bit_xor-zero crc)
register-word (b ∷ bs) crc (hb, hbs) =
    register-word bs (bit_rounds 8 (bit_xor crc b)) hbs
    ∙ sym (absorb (length bs) crc b (from_le bs) hb)
  where
    absorb :
        (n crc b w : ℕ)
        → IsByte b
        → bit_rounds (8 * suc n) (bit_xor crc (b + 256 * w))
          ≡ bit_rounds (8 * n) (bit_xor (bit_rounds 8 (bit_xor crc b)) w)
    absorb n crc b w h =
        let more : 8 * suc n ≡ 8 + 8 * n = omega arith in
        rw (low_byte b w h, more, ← bit_xor_assoc crc b (w * 2 ^ 8))
          (bit_rounds-add 8 (8 * n) (bit_xor (bit_xor crc b) (w * 2 ^ 8))
            ∙ ap (bit_rounds (8 * n)) (
                bit_rounds-bit_xor 8 (bit_xor crc b) (w * 2 ^ 8)
                ∙ ap (bit_xor (bit_rounds 8 (bit_xor crc b))) (bit_rounds-shift 8 w)))

-- The bytes above the lowest one are not touched by a xor with a byte.
above_byte : (a b : ℕ) → IsByte b → bit_xor a b / 2 ^ 8 ≡ a / 2 ^ 8
above_byte a b h =
    let parts : a ≡ bit_xor (a % 256) (a / 256 * 2 ^ 8) =
      omega (arith, bit_xor_above 8 (a % 256) (a / 256) (omega arith)) in
    let small : bit_xor b (a % 256) < 2 ^ 8 = bit_xor-lt 8 b (a % 256) h (omega arith) in
    ap (λ t. t / 2 ^ 8)
      (bit_xor_comm a b
        ∙ ap (bit_xor b) parts
        ∙ sym (bit_xor_assoc b (a % 256) (a / 256 * 2 ^ 8))
        ∙ bit_xor_above 8 (bit_xor b (a % 256)) (a / 256) small)
    ∙ omega arith

remainder_bytes-cons :
    (crc b : ℕ) (bs : Bytes)
    → IsByte b
    → remainder_bytes crc (b ∷ bs) ≡ remainder_bytes (bit_rounds 8 (bit_xor crc b)) bs
unfolding remainder_bytes table
remainder_bytes-cons crc b bs h = rw (← above_byte crc b h, ← bit_rounds-eight (bit_xor crc b))

-- The remainder loop is the register.
remainder_bytes-register :
    (crc : ℕ) (bs : Bytes) → All IsByte bs → remainder_bytes crc bs ≡ register crc bs
remainder_bytes-register crc [] h = unfold remainder_bytes in refl
remainder_bytes-register crc (b ∷ bs) (hb, hbs) =
    remainder_bytes-cons crc b bs hb
    ∙ remainder_bytes-register (bit_rounds 8 (bit_xor crc b)) bs hbs

-- The rounds of a 32-bit word, byte by byte.
rounds_four :
    (m x : ℕ)
    → x < 2 ^ 32
    → bit_rounds (8 * suc (suc (suc (suc m)))) x
      ≡ bit_xor (bit_rounds (8 * suc (suc (suc (suc m)))) (bit_and x 0xff)) (
          bit_xor (bit_rounds (8 * suc (suc (suc m))) (bit_and (x / 2 ^ 8) 0xff)) (
            bit_xor
              (bit_rounds (8 * suc (suc m)) (bit_and (x / 2 ^ 16) 0xff))
              (bit_rounds (8 * suc m) (x / 2 ^ 24))))
rounds_four m x h =
    rw (bit_and_low 8 x, bit_and_low 8 (x / 2 ^ 8), bit_and_low 8 (x / 2 ^ 16))
      (part (suc (suc (suc m))) x (x / 2 ^ 8) (omega arith)
        ∙ ap (bit_xor (bit_rounds (8 * suc (suc (suc (suc m)))) (x % 2 ^ 8))) (
            part (suc (suc m)) (x / 2 ^ 8) (x / 2 ^ 16) (omega arith)
            ∙ ap (bit_xor (bit_rounds (8 * suc (suc (suc m))) (x / 2 ^ 8 % 2 ^ 8)))
                (part (suc m) (x / 2 ^ 16) (x / 2 ^ 24) (omega arith))))
  where
    part :
        (n y z : ℕ)
        → y / 256 ≡ z
        → bit_rounds (8 * suc n) y
          ≡ bit_xor (bit_rounds (8 * suc n) (y % 2 ^ 8)) (bit_rounds (8 * n) z)
    part n y z e =
        let whole : y ≡ y % 256 + 256 * z = omega arith in
        ap (bit_rounds (8 * suc n)) whole ∙ rounds_word n (y % 256) z (omega arith)

-- The eight lookups are 64 rounds of the two words side by side.
lookups-bit_rounds :
    (lower upper : ℕ)
    → lower < 2 ^ 32
    → upper < 2 ^ 32
    → lookups lower upper ≡ bit_rounds 64 (bit_xor lower (upper * 2 ^ 32))
unfolding lookups
lookups-bit_rounds lower upper hl hu =
    simp (table-bit_rounds, bit_xor_assoc)
      (sym (
        bit_rounds-bit_xor 64 lower (upper * 2 ^ 32)
        ∙ ap (bit_xor (bit_rounds 64 lower))
            (bit_rounds-add 32 32 (upper * 2 ^ 32) ∙ ap (bit_rounds 32) (bit_rounds-shift 32 upper))
        ∙ rw (rounds_four 4 lower hl, rounds_four 0 upper hu) (simp bit_xor_assoc)))

-- One chunk takes the register over its eight bytes.
chunk-register :
    (crc : ℕ) (first last : Bytes)
    → length first ≡ 4
    → length last ≡ 4
    → All IsByte first
    → All IsByte last
    → IsU32 crc
    → lookups (bit_xor (from_le first) crc) (from_le last) ≡ register crc (first ++ last)
chunk-register crc first last e f hf hl hc =
    let lower_lt : from_le first < 2 ^ 32 = rw e at (from_le-lt first hf) in
    let upper_lt : from_le last < 2 ^ 32 = rw f at (from_le-lt last hl) in
    let size : 8 * length (first ++ last) ≡ 64 = omega (arith, length-append first last) in
    lookups-bit_rounds (bit_xor (from_le first) crc) (from_le last)
      (bit_xor-lt 32 (from_le first) crc lower_lt hc) upper_lt
    ∙ ap (bit_rounds 64) (
        ap (λ t. bit_xor t (from_le last * 2 ^ 32)) (bit_xor_comm (from_le first) crc)
        ∙ bit_xor_assoc crc (from_le first) (from_le last * 2 ^ 32)
        ∙ ap (bit_xor crc) (bit_xor_above 32 (from_le first) (from_le last) lower_lt ∙ word))
    ∙ ap (λ n. bit_rounds n (bit_xor crc (from_le (first ++ last)))) (sym size)
    ∙ sym (register-word (first ++ last) crc (All-append IsByte first last hf hl))
  where
    word : from_le first + from_le last * 2 ^ 32 ≡ from_le (first ++ last)
    word = rw (from_le-append first last, e) (omega arith)

pub register-append :
    (crc : ℕ) (xs ys : Bytes) → register crc (xs ++ ys) ≡ register (register crc xs) ys
register-append crc [] ys = refl
register-append crc (x ∷ xs) ys = register-append (bit_rounds 8 (bit_xor crc x)) xs ys

-- The register stays a 32-bit word.
pub bit_round-IsU32 : (a : ℕ) → IsU32 a → IsU32 (bit_round a)
bit_round-IsU32 a h = rw (bit_round-carry a) (
    bit_xor-lt 32 (a / 2) (carry (a % 2)) (omega arith)
      (elim (digit-cases a) [ inl e ↦ rw e (omega arith) | inr e ↦ rw e (omega arith) ]))

pub bit_rounds-IsU32 : (n a : ℕ) → IsU32 a → IsU32 (bit_rounds n a)
unfolding bit_rounds
bit_rounds-IsU32 zero a h = h
bit_rounds-IsU32 (suc n) a h = bit_rounds-IsU32 n (bit_round a) (bit_round-IsU32 a h)

pub register-IsU32 : (crc : ℕ) (bs : Bytes) → IsU32 crc → All IsByte bs → IsU32 (register crc bs)
register-IsU32 crc [] h hs = h
register-IsU32 crc (b ∷ bs) h (hb, hbs) =
    register-IsU32 (bit_rounds 8 (bit_xor crc b)) bs
      (bit_rounds-IsU32 8 (bit_xor crc b) (bit_xor-lt 32 crc b h (omega arith))) hbs

chunks-cons :
    (crc b0 b1 b2 b3 b4 b5 b6 b7 : ℕ) (rest : Bytes)
    → chunks crc (b0 ∷ b1 ∷ b2 ∷ b3 ∷ b4 ∷ b5 ∷ b6 ∷ b7 ∷ rest)
      ≡ chunks
          (lookups
            (bit_xor (from_le (b0 ∷ b1 ∷ b2 ∷ b3 ∷ [])) crc)
            (from_le (b4 ∷ b5 ∷ b6 ∷ b7 ∷ [])))
          rest
unfolding chunks
chunks-cons crc b0 b1 b2 b3 b4 b5 b6 b7 rest = refl

-- The chunk loop and the remainder loop together are the register.
chunks-register :
    (crc : ℕ) (bs : Bytes) → IsU32 crc → All IsByte bs → chunks crc bs ≡ register crc bs
chunks-register crc (b0 ∷ b1 ∷ b2 ∷ b3 ∷ b4 ∷ b5 ∷ b6 ∷ b7 ∷ rest) hc
      (h0, (h1, (h2, (h3, (h4, (h5, (h6, (h7, hs)))))))) =
    let first : Bytes = b0 ∷ b1 ∷ b2 ∷ b3 ∷ [] in
    let last : Bytes = b4 ∷ b5 ∷ b6 ∷ b7 ∷ [] in
    let hf : All IsByte first = (h0, (h1, (h2, (h3, tt)))) in
    let hl : All IsByte last = (h4, (h5, (h6, (h7, tt)))) in
    let chunk : lookups (bit_xor (from_le first) crc) (from_le last)
        ≡ register crc (first ++ last) =
      chunk-register crc first last refl refl hf hl hc in
    chunks-cons crc b0 b1 b2 b3 b4 b5 b6 b7 rest
    ∙ ap (λ t. chunks t rest) chunk
    ∙ chunks-register (register crc (first ++ last)) rest
        (register-IsU32 crc (first ++ last) hc (All-append IsByte first last hf hl)) hs
    ∙ sym (register-append crc (first ++ last) rest)
chunks-register crc bs hc h = unfold chunks in remainder_bytes-register crc bs h

-- `crc32c` of any bytes is the CRC that is computed one bit at a time.
pub crc32c-bitwise : (bs : Bytes) → All IsByte bs → crc32c bs ≡ bitwise_crc32c bs
unfolding crc32c
crc32c-bitwise bs h = ap (λ t. bit_xor t 0xffffffff) (chunks-register 0xffffffff bs (omega arith) h)

-- A checksum is a 32-bit word.
pub crc32c-IsU32 : (bs : Bytes) → All IsByte bs → IsU32 (crc32c bs)
crc32c-IsU32 bs h = rw (crc32c-bitwise bs h) (
    bit_xor-lt 32 (register 0xffffffff bs) 0xffffffff (register-IsU32 0xffffffff bs (omega arith) h)
      (omega arith))
