-- ===== src/Io/Uring.antt =====
-- `UringIo` of src/io/uring.rs: requests are split into segments, which are submitted to the ring,
-- and a segment whose completion is short is submitted again for its rest. The ring and the system
-- below it decide when an entry completes, and with what result.
pub mod Reaches
pub mod Bounds
pub mod Segments
pub mod Parts
pub mod Reads
pub mod Splits
pub mod Transfers
pub mod Progress
pub mod Loop
pub mod Ends
use uol_ms_project.Prelude.{
  ℕ, zero, suc, ◌+◌, ◌-◌, ◌*◌, ◌^◌, ◌%◌, min, max, Bool, true, false, ◌&&◌, ◌||◌, not, Option, none,
  some, List, [], ◌∷◌, ◌++◌, length, take, drop, replicate, get_or, set, ◌==◌, ltb, if◌then◌else◌,
  add64,
}
use uol_ms_project.Error.{
  HeapError, Result, ok, err, invalid_arg, zero_chunk, io_error, os, write_zero,
}
use uol_ms_project.Bytes.{Bytes}
use uol_ms_project.Io.{File, WriteReq, IoCounters, no_counters, write_cells}
use uol_ms_project.Io.Sync.{count_read, count_write}

abbrev pub default_depth : ℕ
default_depth = 32

abbrev pub default_chunk : ℕ
default_chunk = 512 * 1024

-- The pointer of a segment stands inside the memory of the caller: `moved` are the segment's bytes
-- before it, and `under` the `len` bytes from it on.
pub record IoSegment : Type 0 where
  pub offset : ℕ
  pub moved : Bytes
  pub under : Bytes

abbrev pub len : IoSegment → ℕ
len segment = length segment.under

-- `segment.len as u32`, the length that an entry asks for.
abbrev pub asked : IoSegment → ℕ
asked segment = len segment % 2 ^ 32

abbrev pub no_segment : IoSegment
no_segment = record { offset = 0; moved = []; under = [] }

-- The fields of `UringIo` besides the ring: the depth, which `new` makes one at least, and the size
-- of a segment.
pub record UringConfig : Type 0 where
  pub depth : ℕ
  pub chunk : ℕ

unfoldable pub new : ℕ → ℕ → Result UringConfig
new depth chunk =
    if chunk == 0
    then err (invalid_arg zero_chunk)
    else ok (record { depth = max depth 1; chunk = chunk })

-- The loop of `split`, over the bytes that are left.
unfoldable pub split_loop : ℕ → ℕ → ℕ → ℕ → Bytes → List IoSegment
split_loop zero chunk offset done bytes = []
split_loop (suc fuel) chunk offset done bytes =
    let segment_length = min (length bytes) chunk in
    let rest = split_loop fuel chunk offset (done + segment_length) (drop segment_length bytes) in
    if length bytes == 0
    then []
    else record { offset = add64 offset done; moved = []; under = take segment_length bytes } ∷ rest

-- A byte at least goes into each segment.
unfoldable pub split : ℕ → ℕ → Bytes → List IoSegment
unfolding split_loop
split chunk offset bytes = split_loop (length bytes) chunk offset 0 bytes

-- The segments of the requests of `write_vec`.
unfoldable pub write_segments : ℕ → List WriteReq → List IoSegment
unfolding split
write_segments chunk [] = []
write_segments chunk (request ∷ rest) =
    split chunk request.off request.buf ++ write_segments chunk rest

-- A request of `read_vec` with the memory of the caller, as it is before the read.
pub record ReadBuffer : Type 0 where
  pub off : ℕ
  pub buf : Bytes

-- The segments of the requests of `read_vec`.
unfoldable pub read_segments : ℕ → List ReadBuffer → List IoSegment
unfolding split
read_segments chunk [] = []
read_segments chunk (request ∷ rest) =
    split chunk request.off request.buf ++ read_segments chunk rest

-- The variables of `run`, the counters and the file. `queue` is the ring's: the user data of the
-- entries that are submitted and not completed, each for its segment as it stands.
pub record Run : Type 0 where
  pub segments : List IoSegment
  pub next : ℕ
  pub pending : ℕ
  pub error : Option HeapError
  pub counters : IoCounters
  pub file : File
  pub queue : List ℕ

abbrev pub started : List IoSegment → IoCounters → File → Run
started segments counters file = record {
  segments = segments;
  next = 0;
  pending = 0;
  error = none;
  counters = counters;
  file = file;
  queue = [];
}

abbrev pub segment_at : Run → ℕ → IoSegment
segment_at r id = get_or r.segments id no_segment

abbrev pub has_error : Run → Bool
has_error r = elim r.error [ none ↦ false | some e ↦ true ]

-- `if error.is_none() { error = Some(..) }`
abbrev pub first_error : HeapError → Option HeapError → Option HeapError
first_error e none = some e
first_error e (some earlier) = some earlier

-- The condition of the loop that fills the queue.
abbrev pub may_submit : ℕ → Run → Bool
may_submit depth r = ltb r.pending depth && ltb r.next (length r.segments) && not (has_error r)

-- Its body.
abbrev pub submit_next : Run → Run
submit_next r = record r {
  queue = r.queue ++ r.next ∷ [];
  next = r.next + 1;
  pending = r.pending + 1;
}

-- The condition of the loop of `run`.
abbrev pub is_running : Run → Bool
is_running r = ltb r.next (length r.segments) || ltb 0 r.pending

-- The result of a completion: the number of an error, or the bytes that were transferred.
pub data Completion : Type 0 where
  failed : ℕ → Completion
  transferred : Bytes → Completion

-- The first entry of the queue with this user data is gone.
abbrev pub remove : ℕ → List ℕ → List ℕ
remove id [] = []
remove id (k ∷ queue) = if k == id then queue else k ∷ remove id queue

abbrev pub set_segment : ℕ → IoSegment → Run → Run
set_segment id segment r = record r { segments = set r.segments id segment }

-- What the system does for an entry: a read fills the memory under the pointer, a write changes the
-- file.
abbrev pub arrived : Bool → ℕ → Bytes → Run → Run
arrived true id bytes r =
    let segment = segment_at r id in
    set_segment id (record segment { under = bytes ++ drop (length bytes) segment.under }) r
arrived false id bytes r = record r { file = write_cells (segment_at r id).offset bytes r.file }

-- The segment behind the bytes that were completed.
abbrev pub advanced : ℕ → IoSegment → IoSegment
advanced n segment = record {
  offset = add64 segment.offset n;
  moved = segment.moved ++ take n segment.under;
  under = drop n segment.under;
}

abbrev pub counted : Bool → ℕ → Run → Run
counted true n r = record r { counters = count_read n r.counters }
counted false n r = record r { counters = count_write n r.counters }

-- A segment that is submitted again.
abbrev pub submit_again : ℕ → ℕ → Run → Run
submit_again id n r =
    let r1 = set_segment id (advanced n (segment_at r id)) r in
    record r1 { queue = r1.queue ++ id ∷ []; pending = r1.pending + 1 }

-- `write_bytes(segment.pointer, 0, segment.len)`
abbrev pub zero_rest : ℕ → Run → Run
zero_rest id r =
    let segment = segment_at r id in
    set_segment id (record segment { under = replicate (len segment) 0 }) r

-- The tests on a completion of `n` bytes.
abbrev pub settle : Bool → ℕ → ℕ → Run → Run
settle is_read id n r =
    if (n == len (segment_at r id)) || has_error r
    then r
    else if is_read && n == 0
    then zero_rest id r
    else if not is_read && n == 0
    then record r { error = first_error (io_error write_zero) r.error }
    else submit_again id n r

-- The body of the loop over the completions.
unfoldable pub handle : Bool → ℕ → Completion → Run → Run
handle is_read id (failed number) r = record r {
  queue = remove id r.queue;
  pending = r.pending - 1;
  error = first_error (io_error (os number)) r.error;
}
handle is_read id (transferred bytes) r = settle is_read id (length bytes) (
    counted is_read (length bytes)
      (arrived is_read id bytes (record r { queue = remove id r.queue; pending = r.pending - 1 })))

-- `match error`
abbrev pub error_result : Option HeapError → Result (Unit {0})
error_result none = ok tt
error_result (some e) = err e

-- The result of `run` when its loop ends.
abbrev pub result_of : Run → Result (Unit {0})
result_of r = error_result r.error
