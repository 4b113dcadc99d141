-- ===== src/Rng.antt =====
-- src/rng.rs: the generator SplitMix64, its numbers below a bound and its random bytes.
use uol_ms_project.Prelude.{
  ℕ, zero, suc, ◌*◌, ◌/◌, ◌%◌, ◌^◌, ◌<◌, ◌≢◌, [], ◌++◌, bit_xor, take, ◌==◌, if◌then◌else◌, add64,
  mul64, arith,
}
use uol_ms_project.Prelude.Bits.{bit_xor-lt}
use uol_ms_project.Bytes.{Bytes, to_le}

-- `value ^ (value >> k)`
abbrev shift_mix : ℕ → ℕ → ℕ
shift_mix k value = bit_xor value (value / 2 ^ k)

-- `SplitMix64::next_u64` on the state that was just stepped.
abbrev output : ℕ → ℕ
output state =
    shift_mix 31
      (mul64 (shift_mix 27 (mul64 (shift_mix 30 state) 0xbf58476d1ce4e5b9)) 0x94d049bb133111eb)

-- A number and the state behind it.
abbrev pub next_u64 : ℕ → ℕ × ℕ
next_u64 state = let stepped = add64 state 0x9e3779b97f4a7c15 in (output stepped, stepped)

-- The product is taken in 128 bits.
abbrev pub below : ℕ → ℕ → ℕ × ℕ
below bound state = let next = next_u64 state in (next.0 * bound / 2 ^ 64, next.1)

-- The loop over `chunks_exact_mut(8)`.
abbrev fill_chunks : ℕ → ℕ → Bytes × ℕ
fill_chunks zero state = ([], state)
fill_chunks (suc n) state =
    let next = next_u64 state in
    let rest = fill_chunks n next.1 in (to_le 8 next.0 ++ rest.0, rest.1)

-- `fill` of a buffer of `len` bytes.
abbrev pub fill : ℕ → ℕ → Bytes × ℕ
fill len state =
    let chunks = fill_chunks (len / 8) state in
    let next = next_u64 chunks.1 in
    if len % 8 == 0 then chunks else (chunks.0 ++ take (len % 8) (to_le 8 next.0), next.1)

abbrev pub payload_for : ℕ → ℕ → ℕ → Bytes
payload_for seed key len = (fill len (bit_xor seed (mul64 key 0xa0761d6478bd642f))).0

shift_mix-lt : (k v : ℕ) → v < 2 ^ 64 → v / 2 ^ k < 2 ^ 64 → shift_mix k v < 2 ^ 64
shift_mix-lt k v h l = bit_xor-lt 64 v (v / 2 ^ k) h l

output-lt : (state : ℕ) → output state < 2 ^ 64
output-lt state = shift_mix-lt 31 _ (omega arith) (omega arith)

-- A number below a bound that is not 0 is below it.
pub below-lt : (bound state : ℕ) → bound ≢ 0 → (below bound state).0 < bound
below-lt bound state h = scaled (output (add64 state 0x9e3779b97f4a7c15)) bound (output-lt _) h
  where
    scaled : (x m : ℕ) → x < 2 ^ 64 → m ≢ 0 → x * m / 2 ^ 64 < m
    scaled x m l p = grind arith
