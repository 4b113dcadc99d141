-- ===== src/Io.antt =====
-- src/io/mod.rs: requests, counters and the interface of the I/O backends. A file is what the
-- system keeps for a path: its bytes, and its length; bytes past the end read as 0.
pub mod Overlay
pub mod Parts
pub mod AlignedBuf
pub mod Sync
pub mod Uring
use uol_ms_project.Prelude.{
  ℕ, zero, suc, ◌+◌, ◌-◌, ◌≤◌, ◌<◌, ◌^◌, ◌≡◌, max, Bool, ◌&&◌, List, [], ◌∷◌, All, length, get_or,
  map, ltb, leb, if◌then◌else◌,
}
use uol_ms_project.Prelude.Exec.{Exec, Returns}
use uol_ms_project.Bytes.{Bytes}

-- The three files of a heap.
pub data FileName : Type 0 where
  data_hs index_hs registry_hs : FileName

pub record File : Type 0 where
  pub path : FileName
  pub cell : ℕ → ℕ
  pub size : ℕ

-- Past the end of a file there are no bytes.
abbrev pub IsFile : File → Type 0
IsFile file = (i : ℕ) → file.size ≤ i → file.cell i ≡ 0

-- `set_len(0)`
abbrev pub truncated : File → File
truncated file = record file { cell = λ i. 0; size = 0 }

-- `n` bytes from `off` on.
abbrev pub read_cells : (ℕ → ℕ) → ℕ → ℕ → Bytes
read_cells cell off zero = []
read_cells cell off (suc n) = cell off ∷ read_cells cell (off + 1) n

-- `bytes` laid over what a file holds, from `off` on.
abbrev pub overlay : ℕ → Bytes → (ℕ → ℕ) → ℕ → ℕ
overlay off bytes cell i =
    if leb off i && ltb i (off + length bytes) then get_or bytes (i - off) 0 else cell i

-- A write of no bytes does not make a file longer.
abbrev pub size_with : ℕ → ℕ → Bytes → ℕ
size_with size off [] = size
size_with size off (b ∷ bytes) = max size (off + suc (length bytes))

abbrev pub write_cells : ℕ → Bytes → File → File
write_cells off bytes file = record file {
  cell = overlay off bytes file.cell;
  size = size_with file.size off bytes;
}

-- The buffer of a read request is filled up to its length.
pub record ReadReq : Type 0 where
  pub off : ℕ
  pub len : ℕ

pub record WriteReq : Type 0 where
  pub off : ℕ
  pub buf : Bytes

abbrev pub read_request : File → ReadReq → Bytes
read_request file request = read_cells file.cell request.off request.len

abbrev pub write_requests : List WriteReq → File → File
write_requests [] file = file
write_requests (request ∷ rest) file =
    write_requests rest (write_cells request.off request.buf file)

pub record IoCounters : Type 0 where
  pub reads : ℕ
  pub writes : ℕ
  pub read_bytes : ℕ
  pub write_bytes : ℕ
  pub syncs : ℕ

abbrev pub no_counters : IoCounters
no_counters = record { reads = 0; writes = 0; read_bytes = 0; write_bytes = 0; syncs = 0 }

-- The trait `BlockIo`, with the state of the backend and of the system below it. `fallocate` and
-- `file_len` are the system's answers to `io::fallocate` and to `metadata().len()`.
pub record BlockIo : Type 1 where
  pub Io : Type 0
  pub read_vec : File → List ReadReq → Exec Io (List Bytes)
  pub write_vec : List WriteReq → Exec (File × Io) (Unit {0})
  pub sync : File → Exec Io (Unit {0})
  pub fallocate : ℕ → ℕ → Exec (File × Io) (Unit {0})
  pub file_len : File → Exec Io ℕ
  pub counters : Io → IoCounters
  pub reset_counters : Io → Io

-- The bytes of a request end below 2 ^ 64.
abbrev pub IsReadable : ReadReq → Type 0
IsReadable request = request.off + request.len < 2 ^ 64

abbrev pub IsWritable : WriteReq → Type 0
IsWritable request = request.off + length request.buf < 2 ^ 64

-- What a backend promises while the system reports no error: a read returns what the file holds, a
-- write leaves its bytes and nothing else, and neither a sync nor an allocation changes a byte.
pub record IsReliable (io : BlockIo) : Type 0 where
  pub reads :
      (file : File) (requests : List ReadReq) (s : BlockIo.Io io)
      → IsFile file
      → All IsReadable requests
      → Returns
          (λ buffers _. buffers ≡ map (read_request file) requests)
          (BlockIo.read_vec io file requests s)
  pub writes :
      (file : File) (requests : List WriteReq) (s : BlockIo.Io io)
      → All IsWritable requests
      → Returns
          (λ _ after. after.0 ≡ write_requests requests file)
          (BlockIo.write_vec io requests (file, s))
  pub syncs : (file : File) (s : BlockIo.Io io) → Returns (λ _ _. Unit {0}) (BlockIo.sync io file s)
  pub allocates :
      (file : File) (off len : ℕ) (s : BlockIo.Io io)
      → Returns
          (λ _ after. after.0 ≡ record file { size = max file.size (off + len) })
          (BlockIo.fallocate io off len (file, s))
  pub lengths :
      (file : File) (s : BlockIo.Io io)
      → Returns (λ n _. n ≡ file.size) (BlockIo.file_len io file s)
