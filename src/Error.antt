-- ===== src/Error.antt =====
-- src/error.rs: the errors of the storage engine, as values.
use Prim.Native.Nat.{ℕ}

-- What a `Corrupt` error names.
pub data Damage : Type 0 where
  file_header record_header record_identity record_payload registry_row registry_row_kind : Damage

-- `UnexpectedEof` and `WriteZero` are the kinds that the program makes itself; `os` is an error
-- number of the system.
pub data IoError : Type 0 where
  unexpected_eof write_zero would_block : IoError
  os : ℕ → IoError

pub data Argument : Type 0 where
  zero_chunk unknown_bucket : Argument

pub data HeapError : Type 0 where
  io_error : IoError → HeapError
  corrupt : Damage → ℕ → HeapError
  not_found : ℕ → HeapError
  invalid_arg : Argument → HeapError
  -- not a value of the program: a panic, such as an index out of range or a failed `expect`
  panic : HeapError
  -- nor is this one: the fuel of a loop ran out
  stuck : HeapError

pub data Result {ℓ} (A : Type ℓ) : Type ℓ where
  ok : A → Result A
  err : HeapError → Result A
