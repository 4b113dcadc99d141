-- ===== src/Bytes.antt =====
-- Byte slices as the formats use them: little-endian words (the standard library's `to_le_bytes`
-- and `from_le_bytes`) and `out[off..off + n].copy_from_slice(src)`. A byte is a number below 256.
pub mod Words
pub mod Slices
use uol_ms_project.Prelude.{ℕ, zero, suc, ◌+◌, ◌*◌, ◌/◌, ◌%◌, ◌^◌, ◌<◌, List, [], ◌∷◌, All}

abbrev pub Bytes : Type 0
Bytes = List ℕ

abbrev pub IsByte : ℕ → Type 0
IsByte b = b < 256

abbrev pub IsU16 : ℕ → Type 0
IsU16 v = v < 2 ^ 16

abbrev pub IsU32 : ℕ → Type 0
IsU32 v = v < 2 ^ 32

abbrev pub IsU64 : ℕ → Type 0
IsU64 v = v < 2 ^ 64

-- `v.to_le_bytes()` of a word of `n` bytes.
unfoldable pub to_le : ℕ → ℕ → Bytes
to_le zero v = []
to_le (suc n) v = (v % 256) ∷ to_le n (v / 256)

-- `from_le_bytes(bytes)`
unfoldable pub from_le : Bytes → ℕ
from_le [] = 0
from_le (b ∷ bs) = b + 256 * from_le bs

-- `out[off..off + src.len()].copy_from_slice(src)`; every call of the program is within `out`.
unfoldable pub put_at : ℕ → Bytes → Bytes → Bytes
put_at off [] out = out
put_at off (b ∷ bs) [] = []
put_at zero (b ∷ bs) (x ∷ out) = b ∷ put_at zero bs out
put_at (suc off) (b ∷ bs) (x ∷ out) = x ∷ put_at off (b ∷ bs) out
