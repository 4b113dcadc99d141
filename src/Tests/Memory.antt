-- ===== src/Tests/Memory.antt =====
-- A backend that keeps every promise: it reads and writes the bytes of the file it is given.
use uol_ms_project.Prelude.{◌+◌, max, refl, map}
use uol_ms_project.Prelude.Exec.{returns}
use uol_ms_project.Error.{ok}
use uol_ms_project.Io.{
  BlockIo, IsReliable, File, data_hs, read_request, write_requests, no_counters,
}

abbrev pub memory : BlockIo
memory = record {
  Io = Unit {0};
  read_vec = λ file requests s. (ok (map (read_request file) requests), s);
  write_vec = λ requests s. (ok tt, (write_requests requests s.0, s.1));
  sync = λ file s. (ok tt, s);
  fallocate = λ off len s. (ok tt, (record s.0 { size = max s.0.size (off + len) }, s.1));
  file_len = λ file s. (ok file.size, s);
  counters = λ s. no_counters;
  reset_counters = λ s. s;
}

pub memory-IsReliable : IsReliable memory
memory-IsReliable = record {
  reads = λ file requests s h fits. returns (map (read_request file) requests) s refl;
  writes = λ file requests s fits. returns tt (write_requests requests file, s) refl;
  syncs = λ file s. returns tt s tt;
  allocates =
      λ file off len s. returns tt (record file { size = max file.size (off + len) }, s) refl;
  lengths = λ file s. returns file.size s refl;
}

abbrev pub no_bytes : File
no_bytes = record { path = data_hs; cell = λ i. 0; size = 0 }
