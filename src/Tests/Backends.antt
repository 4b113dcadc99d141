-- ===== src/Tests/Backends.antt =====
-- The theorems on the backends and on the search for an extent.
use uol_ms_project.Prelude.{
  ℕ, ltb→le, inr, ◌≢◌, inl, Bool-cases, le→ltb, ◌+◌, ◌≤◌, ◌≡◌, refl, true, none, List, [], ◌∷◌, ltb,
  max, map, take, if◌then◌else◌, arith,
}
use uol_ms_project.Error.{ok, err, stuck}
use uol_ms_project.Io.{File, IsFile, data_hs, read_cells, write_cells, IsReliable, no_counters}
use uol_ms_project.Io.Sync.{Kernel, sync_io}
use uol_ms_project.Io.Sync.Reliable.{IsHonest, sync_io-IsReliable}
use uol_ms_project.Io.Uring.{
  ReadBuffer, Completion, split_loop, split, Run, transferred, started, submit_next, handle,
  read_segments,
}
use uol_ms_project.Io.Uring.Reaches.{Reaches, here, there, begin, submit, complete}
use uol_ms_project.Io.Uring.Bounds.{IsCounted, reaches_bounds}
use uol_ms_project.Tests.Memory.{memory}
use uol_ms_project.Placement.Bucket.Search.{find_extent-Ends, NoStuck}
use uol_ms_project.Placement.Bucket.{BucketPlacement}
use uol_ms_project.Io.Uring.Progress.{work, completions_lem, segments_work, completions}
use uol_ms_project.Placement.{default_config, Files}
use uol_ms_project.Placement.Bucket.Grant.{grant_fuel, find_extent}
use uol_ms_project.Tests.Heaps.{empty_file}
use uol_ms_project.Io.Uring.Transfers.{uring_reads_lem, gathered}
use uol_ms_project.Io.Uring.Splits.{file_bytes}
use uol_ms_project.Prelude.Exec.{returns}
use uol_ms_project.Data.Stage.{joined}
use uol_ms_project.Io.Uring.Ends.{Finishes, run-Finishes}
use uol_ms_project.Io.Uring.Loop.{AreBatches, fill, handle_all, run}

-- A system that transfers one byte in each call.
abbrev slow : Kernel
slow = record {
  K = Unit {0};
  read_at =
      λ file off len s. (ok (if ltb off file.size then read_cells file.cell off 1 else []), s);
  write_at = λ off buf s. (ok 1, (write_cells off (take 1 buf) s.0, s.1));
  fdatasync = λ file s. (ok tt, s);
  allocate = λ off len s. (ok tt, (record s.0 { size = max s.0.size (off + len) }, s.1));
  metadata_len = λ file s. (ok file.size, s);
}

slow-IsHonest : IsHonest slow
slow-IsHonest = record {
  reads = λ file off len s h some. elim (Bool-cases (ltb off file.size)) [
    | inl inside ↦ rw inside (returns _ s (omega arith, refl, λ e. absurd (omega (arith, e))))
    | inr past ↦ rw past (returns _ s (omega arith, refl, λ e. ltb→le off file.size past))
  ];
  writes = λ file off buf s some. returns _ _ (omega arith, omega arith, refl);
  syncs = λ file s. returns tt s tt;
  allocates = λ file off len s. returns tt _ refl;
  lengths = λ file s. returns _ s refl;
}

sync_io-IsReliable_example : IsReliable (sync_io slow)
sync_io-IsReliable_example = sync_io-IsReliable slow slow-IsHonest

abbrev three_cells : File
three_cells = record { path = data_hs; cell = λ i. if ltb i 3 then i + 7 else 0; size = 3 }

three_cells-IsFile : IsFile three_cells
three_cells-IsFile i past = rw (le→ltb i 3 past) refl

-- Four bytes are asked for, in segments of two, into a buffer that is not empty; the second segment
-- completes first, and at the end of the file, and the first one byte at a time.
abbrev requests : List ReadBuffer
requests = record { off = 0; buf = 5 ∷ 5 ∷ 5 ∷ 5 ∷ [] } ∷ []

abbrev run0 : Run
run0 = started (read_segments 2 requests) no_counters three_cells

abbrev run1 : Run
run1 = submit_next (submit_next run0)

abbrev run2 : Run
run2 = handle true 1 (transferred (9 ∷ [])) run1

abbrev run3 : Run
run3 = handle true 0 (transferred (7 ∷ [])) run2

abbrev run4 : Run
run4 = handle true 1 (transferred []) run3

abbrev run5 : Run
run5 = handle true 0 (transferred (8 ∷ [])) run4

submitted : Reaches true 32 run0 run1
unfolding read_segments split split_loop
submitted = submit (submit_next run0) (submit run0 begin refl) refl

reached : Reaches true 32 run0 run5
unfolding read_segments split split_loop handle
reached =
    complete run4 0 (transferred (8 ∷ []))
      (complete run3 1 (transferred [])
        (complete run2 0 (transferred (7 ∷ []))
          (complete run1 1 (transferred (9 ∷ [])) submitted (there 0 (1 ∷ []) (here []))
            (omega arith, refl, λ e. absurd (omega (arith, e))))
          (here (1 ∷ [])) (omega arith, refl, λ e. absurd (omega (arith, e))))
        (here (0 ∷ [])) (omega arith, refl, λ e. inr (omega arith)))
      (here []) (omega arith, refl, λ e. absurd (omega (arith, e)))

reaches_bounds_example : IsCounted 32 run5
reaches_bounds_example =
    reaches_bounds true 32 (read_segments 2 requests) no_counters three_cells run5 reached

completions_lem_example : completions reached + work run5 ≤ segments_work (read_segments 2 requests)
completions_lem_example =
    completions_lem true 32 (read_segments 2 requests) no_counters three_cells run5 reached

-- The completions in the batches of three waits, and batches that the run does not wait for.
abbrev unused : List (List (ℕ × Completion))
unused = [] ∷ [] ∷ [] ∷ [] ∷ []

abbrev batches : List (List (ℕ × Completion))
batches =
    ((1, transferred (9 ∷ [])) ∷ (0, transferred (7 ∷ [])) ∷ [])
    ∷ ((1, transferred []) ∷ [])
    ∷ ((0, transferred (8 ∷ [])) ∷ [])
    ∷ unused

batches-AreBatches : AreBatches true 32 batches run0
unfolding read_segments split split_loop handle handle_all fill
batches-AreBatches = λ on some. (
  omega arith,
  (
    (there 0 (1 ∷ []) (here []), (omega arith, refl, λ e. absurd (omega (arith, e)))),
    ((here (1 ∷ []), (omega arith, refl, λ e. absurd (omega (arith, e)))), tt),
  ),
  λ on some. (
    omega arith,
    ((here (0 ∷ []), (omega arith, refl, λ e. inr (omega arith))), tt),
    λ on some. (
      omega arith,
      ((here [], (omega arith, refl, λ e. absurd (omega (arith, e)))), tt),
      λ on. absurd (ground (arith, on)),
    ),
  ),
)

run-Finishes_example : Finishes true 32 (read_segments 2 requests) no_counters three_cells batches
unfolding read_segments split split_loop
run-Finishes_example =
    run-Finishes true 32 (read_segments 2 requests) no_counters three_cells batches (omega arith)
      batches-AreBatches (omega arith)

uring_reads_lem_example : gathered run5.segments ≡ joined (map (file_bytes three_cells) requests)
unfolding read_segments split split_loop handle handle_all fill run
uring_reads_lem_example =
    uring_reads_lem 32 2 requests no_counters three_cells batches run5 (omega arith) (omega arith)
      (omega arith) three_cells-IsFile (omega arith, tt) batches-AreBatches refl refl

memory-NoStuck : NoStuck memory
memory-NoStuck off len file s = λ e. ground (arith, e)

abbrev one_bucket : BucketPlacement
one_bucket = record {
  states =
      record {
        id = 5;
        extents = record { start = 4096; size = 8192; used = 8000 } ∷ [];
        slots = record { start = 0; size = 4096; used = 2 } ∷ [];
      }
      ∷ [];
  bucket_indices = λ k. none;
  extent_grant_count = 1;
  file_size = 12288;
  next_region = 4096;
  registry_end = 4160;
}

abbrev bucket_files : Files memory
bucket_files = record {
  data_file = record { paged_file = empty_file; with_bucket = true; integrity = true };
  registry = none;
  io_state = tt;
}

find_extent-Ends_example :
    (find_extent memory
      (grant_fuel memory one_bucket)
      default_config
      4096
      (one_bucket, bucket_files)).0
    ≢ err stuck
find_extent-Ends_example =
    find_extent-Ends memory memory-NoStuck default_config 4096 one_bucket bucket_files (omega arith)
