-- ===== src/Tests/Checksums.antt =====
-- The theorems on CRC-32C at concrete bytes.
use uol_ms_project.Prelude.{◌≡◌, ◌≢◌, [], ◌∷◌, All, arith}
use uol_ms_project.Bytes.{Bytes, IsByte}
use uol_ms_project.Crc32.{crc32c}
use uol_ms_project.Crc32.Slicing.{bitwise_crc32c, crc32c-bitwise}
use uol_ms_project.Crc32.Detect.{crc32c-detects_byte}

-- `b"123456789"`, a full chunk and a remainder.
abbrev check_bytes : Bytes
check_bytes = b'1' ∷ b'2' ∷ b'3' ∷ b'4' ∷ b'5' ∷ b'6' ∷ b'7' ∷ b'8' ∷ b'9' ∷ []

check_bytes-IsByte : All IsByte check_bytes
check_bytes-IsByte = omega arith

crc32c-bitwise_example : crc32c check_bytes ≡ bitwise_crc32c check_bytes
crc32c-bitwise_example = crc32c-bitwise check_bytes check_bytes-IsByte

crc32c-detects_byte_example : crc32c (b'1' ∷ b'2' ∷ b'3' ∷ []) ≢ crc32c (b'1' ∷ b'7' ∷ b'3' ∷ [])
crc32c-detects_byte_example =
    crc32c-detects_byte (b'1' ∷ []) (b'3' ∷ []) b'2' b'7' (omega arith) (omega arith) (omega arith)
