-- ===== src/Io/Uring/Transfers.antt =====
-- A run of reads that ends without an error has read what was asked for.
use uol_ms_project.Prelude.{
  zero, suc, ◌^◌, get_or, ℕ, ◌+◌, ◌<◌, ◌≡◌, refl, ◌∙◌, List, [], ◌∷◌, ◌++◌, length, All, inl, inr,
  map, Option, none, some, true, arith,
}
use uol_ms_project.Bytes.{Bytes}
use uol_ms_project.Error.{HeapError, ok}
use uol_ms_project.Io.{File, IsFile, IoCounters}
use uol_ms_project.Io.Uring.{
  Completion, ReadBuffer, IoSegment, len, read_segments, Run, started, result_of, error_result,
  no_segment,
}
use uol_ms_project.Io.Uring.Loop.{run, AreBatches}
use uol_ms_project.Io.Uring.Ends.{returned-IsEnd}
use uol_ms_project.Io.Uring.Reaches.{InFlight}
use uol_ms_project.Io.Uring.Bounds.{reaches_bounds}
use uol_ms_project.Io.Uring.Segments.{IsRead}
use uol_ms_project.Io.Uring.Reads.{reaches-IsReading}
use uol_ms_project.Io.Uring.Splits.{IsFresh, HasFit, file_bytes, wanted, read_segments_lem}
use uol_ms_project.Data.Stage.{joined}

-- The memory of the segments, in their order: the buffers of the requests, one behind the other.
abbrev pub gathered : List IoSegment → Bytes
gathered [] = []
gathered (segment ∷ segments) = (segment.moved ++ segment.under) ++ gathered segments

gathered_lem :
    (cell : ℕ → ℕ) (start segments : List IoSegment)
    → length segments ≡ length start
    → ((i : ℕ)
        → i < length start
        → IsRead cell (get_or start i no_segment) (get_or segments i no_segment))
    → gathered segments ≡ wanted cell start
gathered_lem cell [] [] e h = refl
gathered_lem cell [] (x ∷ xs) e h = absurd (omega (arith, e))
gathered_lem cell (y ∷ ys) [] e h = absurd (omega (arith, e))
gathered_lem cell (y ∷ ys) (x ∷ xs) e h = (λ i.
    h 0 (omega arith) i
    ++ gathered_lem cell ys xs (omega (arith, e)) (λ j k. h (suc j) (omega arith)) i)

fresh_moved :
    (start : List IoSegment) → All IsFresh start → All (λ (s : IoSegment). s.moved ≡ []) start
fresh_moved [] h = tt
fresh_moved (s ∷ start) (h, hs) = (h.0, fresh_moved start hs)

fresh_fits :
    (start : List IoSegment)
    → All IsFresh start
    → (i : ℕ) → i < length start
    → ((get_or start i no_segment).offset + len (get_or start i no_segment) < 2 ^ 64)
      × (len (get_or start i no_segment) < 2 ^ 32)
fresh_fits [] h i small = absurd (omega arith)
fresh_fits (s ∷ start) (h, hs) zero small = (h.1, h.2)
fresh_fits (s ∷ start) (h, hs) (suc i) small = fresh_fits start hs i (omega arith)

-- A run of reads over the ring that ends without an error has filled the buffers of its requests
-- with the bytes of the file, 0 past its end, whatever the buffers held, whatever the order of the
-- completions and however short they were. The depth is not 0, the size of a segment is not 0 and is
-- below 2 ^ 32, the requests end below 2 ^ 64, and the completions are such as the system may give.
pub uring_reads_lem :
    (depth chunk : ℕ) (requests : List ReadBuffer) (counters : IoCounters) (file : File)
    (batches : List (List (ℕ × Completion))) (end : Run)
    → 0 < depth
    → 0 < chunk
    → chunk < 2 ^ 32
    → IsFile file
    → All HasFit requests
    → AreBatches true depth batches (started (read_segments chunk requests) counters file)
    → run true depth batches (started (read_segments chunk requests) counters file) ≡ some end
    → result_of end ≡ ok tt
    → gathered end.segments ≡ joined (map (file_bytes file) requests)
uring_reads_lem depth chunk requests counters file batches end room positive word is_file fits
      answers returned well =
    let start = read_segments chunk requests in
    let covered = read_segments_lem chunk requests file positive word fits in
    let ended = returned-IsEnd true depth start counters file batches end room answers returned in
    let c = reaches_bounds true depth start counters file end ended.reached in
    let h =
      reaches-IsReading start file is_file (fresh_fits start covered.1) depth counters end
        (fresh_moved start covered.1) ended.reached in
    let no_error = no_failure end.error well in
    gathered_lem file.cell start end.segments h.is_parts.same_count (λ i small.
      elim (h.done no_error i tt (omega (arith, ended.all no_error, h.is_parts.same_count))) [
        | inl f ↦ absurd (omega (arith, waits i end.queue f, c.counts, ended.idle))
        | inr read ↦ read
      ])
    ∙ covered.0
  where
    no_failure : (error : Option HeapError) → error_result error ≡ ok tt → error ≡ none
    no_failure none e = refl
    no_failure (some failure) e = absurd (ground (arith, e))

    waits : (i : ℕ) (queue : List ℕ) → InFlight i queue → 0 < length queue
    waits i [] f = elim f [ ]
    waits i (k ∷ queue) f = omega arith
