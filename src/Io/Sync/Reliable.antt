-- ===== src/Io/Sync/Reliable.antt =====
-- The loops of `SyncIo` finish what the system began: over calls that may transfer less than they
-- were asked for, the backend keeps every promise of `IsReliable`.
use uol_ms_project.Prelude.{
  ◌-◌, ==→ne, ◌≢◌, inr, ==→eq, inl, take-append-drop, length-drop, length-take, add64, Bool-cases,
  ne→==, false, ◌==◌, ◌^◌, map, refl, sym, ◌∙◌, ap, max, ◌≡◌, ◌<◌, ◌+◌, ◌≤◌, ℕ, zero, suc, List, [],
  ◌∷◌, ◌++◌, All, length, take, drop, arith,
}
use uol_ms_project.Prelude.Exec.{Exec, Returns, returns, Returns-bind, Returns-weaken, pure}
use uol_ms_project.Bytes.{Bytes}
use uol_ms_project.Io.{
  File, IsFile, IsReliable, IsReadable, IsWritable, ReadReq, WriteReq, read_cells, read_request,
  write_cells, write_requests,
}
use uol_ms_project.Io.Sync.{
  Kernel, SyncIo, on_kernel, on_kernel_file, read_loop, read_vec, write_loop, write_vec, sync,
  sync_io,
}
use uol_ms_project.Io.Parts.{
  read_cells-append, read_cells-past, write_cells-append, write_cells-nil,
}

-- What the system's calls do while they report no error: a read gives bytes of the file, at most as
-- many as were asked for, and none only at the end; a write takes a part of the bytes that is not
-- empty.
pub record IsHonest (kernel : Kernel) : Type 0 where
  pub reads :
      (file : File) (off len : ℕ) (s : Kernel.K kernel)
      → IsFile file
      → 0 < len
      → Returns
          (λ piece _.
            (length piece ≤ len)
            × (piece ≡ read_cells file.cell off (length piece))
            × (length piece ≡ 0 → file.size ≤ off))
          (Kernel.read_at kernel file off len s)
  pub writes :
      (file : File) (off : ℕ) (buf : Bytes) (s : Kernel.K kernel)
      → 0 < length buf
      → Returns
          (λ n after. (0 < n) × (n ≤ length buf) × (after.0 ≡ write_cells off (take n buf) file))
          (Kernel.write_at kernel off buf (file, s))
  pub syncs :
      (file : File) (s : Kernel.K kernel)
      → Returns (λ _ _. Unit {0}) (Kernel.fdatasync kernel file s)
  pub allocates :
      (file : File) (off len : ℕ) (s : Kernel.K kernel)
      → Returns
          (λ _ after. after.0 ≡ record file { size = max file.size (off + len) })
          (Kernel.allocate kernel off len (file, s))
  pub lengths :
      (file : File) (s : Kernel.K kernel)
      → Returns (λ n _. n ≡ file.size) (Kernel.metadata_len kernel file s)

module _ (kernel : Kernel) (honest : IsHonest kernel) where
  Returns-on_kernel :
      {A : Type 0} {P : A → Kernel.K kernel → Type 0} (call : Exec (Kernel.K kernel) A)
      (s : SyncIo kernel)
      → Returns P (call s.1)
      → Returns (λ a after. P a after.1) (on_kernel kernel call s)
  Returns-on_kernel call s h = record {
    value = h.value;
    state = (s.0, h.state);
    outcome = ap (λ r. (r.0, (s.0, r.1))) h.outcome;
    post = h.post;
  }

  Returns-on_kernel_file :
      {A : Type 0} {P : A → File × Kernel.K kernel → Type 0}
      (call : Exec (File × Kernel.K kernel) A) (file : File) (s : SyncIo kernel)
      → Returns P (call (file, s.1))
      → Returns (λ a after. P a (after.0, after.1.1)) (on_kernel_file kernel call (file, s))
  Returns-on_kernel_file call file s h = record {
    value = h.value;
    state = (h.state.0, (s.0, h.state.1));
    outcome = ap (λ r. (r.0, (r.1.0, (s.0, r.1.1)))) h.outcome;
    post = h.post;
  }

  -- The loop over a buffer fills it with the bytes of the file, zeros past the end included.
  read_loop_lem :
      (fuel : ℕ) (file : File) (off len : ℕ) (s : SyncIo kernel)
      → IsFile file
      → len ≤ fuel
      → off + len < 2 ^ 64
      → Returns (λ buf _. buf ≡ read_cells file.cell off len) (read_loop kernel fuel file off len s)
  unfolding read_loop
  read_loop_lem zero file off zero s h enough fits = returns [] s refl
  read_loop_lem zero file off (suc len) s h enough fits = absurd (omega arith)
  read_loop_lem (suc fuel) file off zero s h enough fits = returns [] s refl
  read_loop_lem (suc fuel) file off (suc len) s h enough fits =
      let more : (suc len == 0) ≡ false = ne→== (suc len) 0 (omega arith) in
      rw more (
        Returns-bind (on_kernel kernel (Kernel.read_at kernel file off (suc len))) _
          (Returns-on_kernel (Kernel.read_at kernel file off (suc len)) s
            (honest.reads file off (suc len) s.1 h (omega arith)))
          (λ piece mid (short, bytes, last). elim (Bool-cases (length piece == 0)) [
            | inl ended ↦
                rw ended
                  (returns _ _ (read_cells-past file off (suc len) h (last (==→eq _ _ ended))))
            | inr going ↦
                let some_bytes : length piece ≢ 0 = ==→ne _ _ going in
                let whole : length piece + (suc len - length piece) ≡ suc len = omega arith in
                let next : add64 off (length piece) ≡ off + length piece = omega arith in
                rw going (
                  Returns-bind
                    (read_loop kernel fuel file (add64 off (length piece)) (suc len - length piece))
                    (λ rest. pure (piece ++ rest))
                    (read_loop_lem fuel file (add64 off (length piece)) (suc len - length piece) _ h
                      (omega arith) (omega arith))
                    (λ rest after e. returns (piece ++ rest) after (
                      ap (λ t. piece ++ t) e
                      ∙ ap (λ o. piece ++ read_cells file.cell o (suc len - length piece)) next
                      ∙ ap
                          (λ t.
                            t ++ read_cells file.cell (off + length piece) (suc len - length piece))
                          bytes
                      ∙ sym
                          (read_cells-append file.cell off (length piece) (suc len - length piece))
                      ∙ ap (read_cells file.cell off) whole)))
          ]))

  read_vec_lem :
      (file : File) (requests : List ReadReq) (s : SyncIo kernel)
      → IsFile file
      → All IsReadable requests
      → Returns
          (λ buffers _. buffers ≡ map (read_request file) requests)
          (read_vec kernel file requests s)
  unfolding read_vec
  read_vec_lem file [] s h fits = returns [] s refl
  read_vec_lem file (request ∷ rest) s h (fit, fits) =
      Returns-bind (read_loop kernel request.len file request.off request.len) _
        (read_loop_lem request.len file request.off request.len s h (omega arith) fit)
        (λ buffer mid e.
          Returns-bind (read_vec kernel file rest) (λ buffers. pure (buffer ∷ buffers))
            (read_vec_lem file rest mid h fits)
            (λ buffers after es.
              returns (buffer ∷ buffers) after
                (ap (λ t. t ∷ buffers) e ∙ ap (λ t. read_request file request ∷ t) es)))

  -- The loop over a buffer writes all of it.
  write_loop_lem :
      (fuel off : ℕ) (buf : Bytes) (file : File) (s : SyncIo kernel)
      → length buf ≤ fuel
      → off + length buf < 2 ^ 64
      → Returns
          (λ _ after. after.0 ≡ write_cells off buf file)
          (write_loop kernel fuel off buf (file, s))
  unfolding write_loop
  write_loop_lem zero off [] file s enough fits = returns tt (file, s) (write_cells-nil off file)
  write_loop_lem zero off (b ∷ bs) file s enough fits = absurd (omega arith)
  write_loop_lem (suc fuel) off [] file s enough fits =
      returns tt (file, s) (write_cells-nil off file)
  write_loop_lem (suc fuel) off (b ∷ bs) file s enough fits =
      let buf : Bytes = b ∷ bs in
      let more : (length buf == 0) ≡ false = ne→== (length buf) 0 (omega arith) in
      rw more (
        Returns-bind (on_kernel_file kernel (Kernel.write_at kernel off buf)) _
          (Returns-on_kernel_file (Kernel.write_at kernel off buf) file s
            (honest.writes file off buf s.1 (omega arith)))
          (λ n mid (some_bytes, short, wrote).
            let going : (n == 0) ≡ false = ne→== n 0 (omega arith) in
            let next : add64 off n ≡ off + length (take n buf) = omega (arith, length-take n buf) in
            rw going (
              Returns-weaken _
                (write_loop_lem fuel (add64 off n) (drop n buf) mid.0 _
                  (omega (arith, length-drop n buf)) (omega (arith, length-drop n buf)))
                (λ u after e.
                  e
                  ∙ ap (λ o. write_cells o (drop n buf) mid.0) next
                  ∙ ap (write_cells (off + length (take n buf)) (drop n buf)) wrote
                  ∙ write_cells-append off (take n buf) (drop n buf) file
                  ∙ ap (λ t. write_cells off t file) (take-append-drop n buf)))))

  write_vec_lem :
      (requests : List WriteReq) (file : File) (s : SyncIo kernel)
      → All IsWritable requests
      → Returns
          (λ _ after. after.0 ≡ write_requests requests file)
          (write_vec kernel requests (file, s))
  unfolding write_vec
  write_vec_lem [] file s fits = returns tt (file, s) refl
  write_vec_lem (request ∷ rest) file s (fit, fits) =
      Returns-bind (write_loop kernel (length request.buf) request.off request.buf) _
        (write_loop_lem (length request.buf) request.off request.buf file s (omega arith) fit)
        (λ u mid e.
          Returns-weaken _ (write_vec_lem rest mid.0 mid.1 fits)
            (λ v after es. es ∙ ap (write_requests rest) e))

  -- Over a system that reports no error, but may transfer less than it is asked for, the blocking
  -- backend is reliable: a read fills every buffer with the bytes of the file, a write leaves every
  -- byte of its buffers and no other, and the loops end.
  pub sync_io-IsReliable : IsReliable (sync_io kernel)
  unfolding sync
  sync_io-IsReliable = record {
    reads = λ file requests s h fits. read_vec_lem file requests s h fits;
    writes = λ file requests s fits. write_vec_lem requests file s fits;
    syncs = λ file s.
        Returns-bind (on_kernel kernel (Kernel.fdatasync kernel file)) _
          (Returns-on_kernel (Kernel.fdatasync kernel file) s (honest.syncs file s.1))
          (λ u after h. returns tt _ tt);
    allocates = λ file off len s.
        Returns-on_kernel_file (Kernel.allocate kernel off len) file s
          (honest.allocates file off len s.1);
    lengths =
        λ file s. Returns-on_kernel (Kernel.metadata_len kernel file) s (honest.lengths file s.1);
  }
