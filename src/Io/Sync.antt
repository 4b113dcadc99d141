-- ===== src/Io/Sync.antt =====
-- `SyncIo` of src/io/sync.rs: blocking reads and writes, each repeated until the whole buffer is
-- done. `read_at`, `write_at`, `fdatasync`, `fallocate` and `metadata().len()` are the system's: a
-- read gives the bytes that it transferred, and a write their number.
pub mod Reliable
use uol_ms_project.Prelude.{
  ℕ, zero, suc, ◌-◌, List, [], ◌∷◌, ◌++◌, length, drop, replicate, ◌==◌, if◌then◌else◌, add64,
}
use uol_ms_project.Prelude.Exec.{Exec, pure, raise, modify, ◌>>=◌, ◌>>◌}
use uol_ms_project.Error.{io_error, write_zero, stuck}
use uol_ms_project.Bytes.{Bytes}
use uol_ms_project.Io.{File, ReadReq, WriteReq, IoCounters, no_counters, BlockIo}

-- The calls of the system.
pub record Kernel : Type 1 where
  pub K : Type 0
  pub read_at : File → ℕ → ℕ → Exec K Bytes
  pub write_at : ℕ → Bytes → Exec (File × K) ℕ
  pub fdatasync : File → Exec K (Unit {0})
  pub allocate : ℕ → ℕ → Exec (File × K) (Unit {0})
  pub metadata_len : File → Exec K ℕ

abbrev pub count_read : ℕ → IoCounters → IoCounters
count_read n c = record c { reads = add64 c.reads 1; read_bytes = add64 c.read_bytes n }

abbrev pub count_write : ℕ → IoCounters → IoCounters
count_write n c = record c { writes = add64 c.writes 1; write_bytes = add64 c.write_bytes n }

module _ (kernel : Kernel) where
  open kernel use {K, read_at, write_at, fdatasync, allocate, metadata_len}

  abbrev SyncIo : Type 0
  SyncIo = IoCounters × K

  abbrev on_kernel : {A : Type 0} → Exec K A → Exec SyncIo A
  on_kernel call s = let r = call s.1 in (r.0, (s.0, r.1))

  abbrev on_kernel_file : {A : Type 0} → Exec (File × K) A → Exec (File × SyncIo) A
  on_kernel_file call s = let r = call (s.0, s.1.1) in (r.0, (r.1.0, (s.1.0, r.1.1)))

  -- The loop over one buffer; its length is fuel enough, since each turn transfers a byte at least.
  pub read_loop : ℕ → File → ℕ → ℕ → Exec SyncIo Bytes
  read_loop zero file off len = if len == 0 then pure [] else raise stuck
  read_loop (suc fuel) file off len = if len == 0 then pure [] else do
    piece ← on_kernel (read_at file off len)
    modify (λ s. (count_read (length piece) s.0, s.1))
    if length piece == 0 then pure (replicate len 0) else do
      rest ← read_loop fuel file (add64 off (length piece)) (len - length piece)
      pure (piece ++ rest)

  pub read_vec : File → List ReadReq → Exec SyncIo (List Bytes)
  unfolding read_loop
  read_vec file [] = pure []
  read_vec file (request ∷ rest) = do
    buffer ← read_loop request.len file request.off request.len
    buffers ← read_vec file rest
    pure (buffer ∷ buffers)

  pub write_loop : ℕ → ℕ → Bytes → Exec (File × SyncIo) (Unit {0})
  write_loop zero off buf = if length buf == 0 then pure tt else raise stuck
  write_loop (suc fuel) off buf = if length buf == 0 then pure tt else do
    processed_bytes ← on_kernel_file (write_at off buf)
    if processed_bytes == 0 then raise (io_error write_zero) else do
      modify (λ s. (s.0, (count_write processed_bytes s.1.0, s.1.1)))
      write_loop fuel (add64 off processed_bytes) (drop processed_bytes buf)

  pub write_vec : List WriteReq → Exec (File × SyncIo) (Unit {0})
  unfolding write_loop
  write_vec [] = pure tt
  write_vec (request ∷ rest) = do
    write_loop (length request.buf) request.off request.buf
    write_vec rest

  pub sync : File → Exec SyncIo (Unit {0})
  sync file = do
    on_kernel (fdatasync file)
    modify (λ s. (record s.0 { syncs = add64 s.0.syncs 1 }, s.1))

  abbrev pub sync_io : BlockIo
  sync_io = record {
    Io = SyncIo;
    read_vec = read_vec;
    write_vec = write_vec;
    sync = sync;
    fallocate = λ off len. on_kernel_file (allocate off len);
    file_len = λ file. on_kernel (metadata_len file);
    counters = λ s. s.0;
    reset_counters = λ s. (no_counters, s.1);
  }
