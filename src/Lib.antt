-- ===== src/Lib.antt =====
-- Heapstore, a storage engine for heap tables: records with checksums in a data file, an index of
-- slots from record numbers to places, and for the bucket layout a registry of space grants. A
-- development that models the engine and proves its parts correct.
--
-- The program. `Heap` (src/heap.rs) gives each inserted payload a record number. It asks a
-- `Placement` (src/placement.rs) for a place and a number, stages the record in the data file
-- (`DataFile`, src/data.rs), stages a slot in the index file (`IndexFile`, src/index.rs), and
-- commits by the sync policy. A placement is `AppendPlacement` (src/append.rs), which puts records
-- one behind the other, or `BucketPlacement` (src/bucket.rs), which grants extents and slot regions
-- to buckets and keeps the grants in a registry file. All three files are `PagedFile`s
-- (src/data.rs): they stage writes in memory, join neighbouring ones, and write whole pages at a
-- flush through a `BlockIo` backend (src/io). The structures on disk are those of src/format.rs,
-- with checksums from src/crc32.rs.
--
-- The files:
-- - Prelude: shared names; lists and tests on native numbers (Lists, Tests), 64-bit words (Words),
--   bit operations (Bits), and methods with errors and state (Exec)
-- - Error: `HeapError` of src/error.rs; a failed `expect` or `unwrap` is the error `panic`
-- - Bytes: byte strings, little-endian words, `copy_from_slice`
-- - Crc32: `crc32c` of src/crc32.rs; the tables are functions of their indices
-- - Format: src/format.rs: `page_down` and `page_up`; FileHeader, RecordHeader, Slot and RegistryRow
--   each with `encode` and `decode` (`state` for slots)
-- - Io: src/io/mod.rs: `BlockIo` as a record of methods over the backend's own state, AlignedBuf,
--   and files as functions from offsets to bytes with a length
-- - Io/Sync: `SyncIo` of src/io/sync.rs, whose calls of the system are a parameter
-- - Io/Uring: `UringIo` of src/io/uring.rs: the bodies of the loops of `run`, in Loop the loops, and
--   in Reaches the states that a run can reach, the ring and the system choosing the completions;
--   Bounds, Progress, Ends and Transfers are about these states, and about how a run ends
-- - Data: `StagedWrite` and `PagedFile` of src/data.rs. Access: `take_buffer`, `take_sized`,
--   `recycle`; Flush: `flush`; Stage: `stage`; Files: `create`, `open`, `size`, `ensure_alloc`,
--   `note_alloc`, `read_aligned`; View: what a paged file stands for
-- - Records: `DataFile` of src/data.rs, with `read_many` in Records/Batch
-- - Index: `IndexFile` of src/index.rs, with `read_slots` in Index/Batch; Slots: the index as an
--   array of entries
-- - Placement: the trait of src/placement.rs as a record; Append, and Bucket with its grants,
--   allocation and the replay of its registry; Bucket/Search is about the search for an extent
-- - Heap: `Heap` of src/heap.rs: commits and the sync policy, and in Operations the reads and writes
--   of records. Commits, Durable: what a commit writes, and in which order; Table, Abstract: a heap
--   in the append layout as a table from numbers to payloads; Inserts, Lookups, Updates, Deletes and
--   Missing: each operation on the table; Requests: sequences of operations
-- - Recovery: the visitor of `rebuild` in src/recovery.rs, and in Recovery/Index the loop that
--   writes the slots of the records that it kept
-- - Rng: `SplitMix64` of src/rng.rs
-- - Tests: the theorems at concrete inputs
--
-- State and errors. A method with `&mut self` is a function from the object's state to a result and
-- the state after it; what was written before an error stays written. A method that also uses the
-- backend has the pair of the object and the backend's state. The backend is a parameter: a record
-- of methods, with the hypothesis `IsReliable` where a theorem needs what the system documents (a
-- read returns what the file holds, a write leaves its bytes and no others).
--
-- Numbers. u64 and usize are native numbers with the wrap-around of `+`, `-` and `*` written out
-- (`add64`, `sub64`, `mul64`); a shift right is a division. Theorems on paged files ask that
-- offsets stay below 2 ^ 63, which a file's do, and theorems on heaps that record numbers stay
-- below 2 ^ 56, so that their slots lie below that limit. An entry of the ring asks for the length
-- of its segment as a u32, so the theorem on its reads asks that a segment is below 2 ^ 32.
--
-- Loops are recursion on lists; the loops over one buffer of `SyncIo` and of `split` have its
-- length as fuel, since each turn takes a byte at least. The outer loop of `run` in src/io/uring.rs
-- goes over the batches that the ring delivers, one for each wait, and has no result where it would
-- wait for more of them; its loop of submissions has the number of segments as fuel. The other loop
-- is the search for an extent in `grant_extent`: it runs on fuel of three times the number of
-- buckets and four, and returns the error `stuck` when it runs out. The grant numbers come in
-- sections that double in length, and a number past the last bucket of its section ends the search:
-- the attempts are at most the rest of one section, the sections that are not longer than the
-- number of buckets, and one attempt for each bucket in the next.
--
-- Not modelled: the rest of the recovery of existing heaps (the walk over the data file and the
-- registry that a rebuild writes in src/recovery.rs, and the parts of `open` that use them), the
-- rings of io_uring themselves and the abort on a failed submission, measurement, the modules that
-- src/lib.rs does not name, and the programs. Hash maps that are only searched, filled and emptied
-- by key are functions. Memory is not modelled: an aligned buffer is its bytes and its capacity,
-- and the pointer of an I/O segment is the bytes before it and the bytes from it on.
pub mod Prelude
pub mod Error
pub mod Bytes
pub mod Crc32
pub mod Format
pub mod Io
pub mod Data
pub mod Records
pub mod Index
pub mod Placement
pub mod Heap
pub mod Recovery
pub mod Rng
pub mod Tests
