-- ===== src/Crc32.antt =====
-- src/crc32.rs: CRC-32C, eight bytes at a time over eight tables. Words are below 2 ^ 32, so
-- `>> k` is division by 2 ^ k. The tables are functions of their indices; the source stores the
-- same entries in constant arrays.
pub mod Linear
pub mod Slicing
pub mod Detect
use uol_ms_project.Prelude.{
  ℕ, zero, suc, ◌+◌, ◌/◌, ◌^◌, bit_and, bit_xor, List, [], ◌∷◌, ◌==◌, not, if◌then◌else◌,
}
use uol_ms_project.Bytes.{Bytes, from_le}

abbrev pub crc32c_polynomial : ℕ
crc32c_polynomial = 0x82f63b78

-- The body of the loop over `bit_index`.
pub bit_round : ℕ → ℕ
bit_round crc = if not (bit_and crc 1 == 0) then bit_xor (crc / 2) crc32c_polynomial else crc / 2

pub bit_rounds : ℕ → ℕ → ℕ
bit_rounds zero crc = crc
bit_rounds (suc n) crc = bit_rounds n (bit_round crc)

-- `TABLES[0][byte_value]`
pub first_table : ℕ → ℕ
first_table byte_value = bit_rounds 8 byte_value

-- `TABLES[table_index][byte_value]`
pub table : ℕ → ℕ → ℕ
table zero byte_value = first_table byte_value
table (suc table_index) byte_value =
    let prev = table table_index byte_value in
    bit_xor (prev / 2 ^ 8) (first_table (bit_and prev 0xff))

-- The xor of the eight lookups for one chunk, as the source associates it.
pub lookups : ℕ → ℕ → ℕ
lookups lower upper =
    bit_xor
      (bit_xor
        (bit_xor
          (bit_xor
            (bit_xor
              (bit_xor
                (bit_xor (table 7 (bit_and lower 0xff)) (table 6 (bit_and (lower / 2 ^ 8) 0xff)))
                (table 5 (bit_and (lower / 2 ^ 16) 0xff)))
              (table 4 (lower / 2 ^ 24)))
            (table 3 (bit_and upper 0xff)))
          (table 2 (bit_and (upper / 2 ^ 8) 0xff)))
        (table 1 (bit_and (upper / 2 ^ 16) 0xff)))
      (table 0 (upper / 2 ^ 24))

-- The loop over the remainder.
pub remainder_bytes : ℕ → Bytes → ℕ
remainder_bytes crc [] = crc
remainder_bytes crc (byte ∷ rest) =
    remainder_bytes (bit_xor (crc / 2 ^ 8) (table 0 (bit_and (bit_xor crc byte) 0xff))) rest

-- The loop over `chunks_exact(8)`, and then the remainder.
pub chunks : ℕ → Bytes → ℕ
chunks crc (b0 ∷ b1 ∷ b2 ∷ b3 ∷ b4 ∷ b5 ∷ b6 ∷ b7 ∷ rest) =
    let lower = bit_xor (from_le (b0 ∷ b1 ∷ b2 ∷ b3 ∷ [])) crc in
    let upper = from_le (b4 ∷ b5 ∷ b6 ∷ b7 ∷ []) in chunks (lookups lower upper) rest
chunks crc rest = remainder_bytes crc rest

unfoldable pub crc32c : Bytes → ℕ
crc32c bytes = bit_xor (chunks 0xffffffff bytes) 0xffffffff
