-- ===== src/Tests/Heaps.antt =====
-- The theorems on heaps, on an empty heap over the memory backend.
use uol_ms_project.Prelude.{
  sym, ap, subst, true, ◌≡◌, refl, false, none, some, List, [], ◌∷◌, arith,
}
use uol_ms_project.Bytes.{from_le}
use uol_ms_project.Error.{not_found}
use uol_ms_project.Format.Slot
use uol_ms_project.Data.{PagedFile}
use uol_ms_project.Data.View.{IsCoherent}
use uol_ms_project.Placement.{default_config}
use uol_ms_project.Placement.Append.{append_placement, created}
use uol_ms_project.Heap.Table.{put, Table}
use uol_ms_project.Heap.Abstract.{HasRoom-after, AppendHeap, IsTable, Leaves}
use uol_ms_project.Heap.Requests.{
  Answer, Request, to_insert, to_read, to_update, to_delete, inserted, found, finished, refused,
  serve_all,
}
use uol_ms_project.Heap.Requests.Refines.{serve_all_lem}
use uol_ms_project.Tests.Memory.{memory, memory-IsReliable, no_bytes}
use uol_ms_project.Prelude.Exec.{Raises, Returns}
use uol_ms_project.Heap.Operations.{delete, insert_into, update, read}
use uol_ms_project.Heap.{commit}
use uol_ms_project.Heap.Updates.{update_lem}
use uol_ms_project.Heap.Inserts.{insert_into_lem}
use uol_ms_project.Heap.Commits.{commit_lem, IsCommitted}
use uol_ms_project.Heap.Durable.{before_index, commit-keeps_index}
use uol_ms_project.Data.Flush.{flush as flush_file}
use uol_ms_project.Io.{BlockIo}
use uol_ms_project.Error.{err, io_error, os}
use uol_ms_project.Tests.PagedFiles.{three_bytes, three_bytes-IsCoherent}
use uol_ms_project.Heap.Missing.{missing_lem}

abbrev pub empty_file : PagedFile
empty_file = record {
  file = no_bytes;
  tail_pages = λ k. none;
  pool = [];
  staged_writes = [];
  pending_bytes = 0;
  allocated_end = 0;
}

pub empty_file-IsCoherent : IsCoherent empty_file
empty_file-IsCoherent = record {
  is_file = λ i h. refl;
  cache = record {
    aligned = λ k page e. ground (arith, e);
    cached = λ k page e. ground (arith, e);
  };
  staged = tt;
  apart = tt;
}

abbrev empty_heap : AppendHeap memory
empty_heap = record {
  io_state = tt;
  placement = created;
  data_file = record { paged_file = empty_file; with_bucket = false; integrity = false };
  index = empty_file;
  registry = none;
  config = default_config;
  operations_since_sync = 0;
  armed = true;
}

abbrev no_records : Table
no_records id = none

empty_heap-IsTable : IsTable memory no_records empty_heap
unfolding Slot.decode Slot.state from_le
empty_heap-IsTable = record {
  plain = record {
    data_coherent = empty_file-IsCoherent;
    index_coherent = empty_file-IsCoherent;
    no_registry = refl;
  };
  layout = refl;
  store = record {
    from = omega arith;
    upto = omega arith;
    ids = omega arith;
    records = λ id h. refl;
    fresh = λ id h. refl;
  };
}

abbrev session : List Request
session =
    to_insert (7 ∷ 8 ∷ [])
    ∷ to_insert (9 ∷ [])
    ∷ to_read 0
    ∷ to_update 0 (1 ∷ 2 ∷ 3 ∷ [])
    ∷ to_read 0
    ∷ to_delete 0
    ∷ to_read 0
    ∷ []

abbrev table_left : Table
table_left =
    put 0 none
      (put 0 (some (1 ∷ 2 ∷ 3 ∷ [])) (put 1 (some (9 ∷ [])) (put 0 (some (7 ∷ 8 ∷ [])) no_records)))

abbrev session_answers : List Answer
session_answers =
    inserted 0
    ∷ inserted 1
    ∷ found (7 ∷ 8 ∷ [])
    ∷ finished
    ∷ found (1 ∷ 2 ∷ 3 ∷ [])
    ∷ finished
    ∷ refused (not_found 0)
    ∷ []

serve_all_lem_example :
    ((serve_all memory session empty_heap).0 ≡ session_answers)
    × IsTable memory table_left (serve_all memory session empty_heap).1
serve_all_lem_example =
    serve_all_lem memory memory-IsReliable session no_records empty_heap empty_heap-IsTable
      (record { upto = omega arith; growth = omega arith }) (omega arith)
      (
        (omega arith, (omega arith, tt)),
        (
          (omega arith, tt),
          (
            omega arith,
            (
              (omega arith, (omega arith, (omega arith, (omega arith, tt)))),
              (omega arith, (omega arith, (omega arith, tt))),
            ),
          ),
        ),
      )

missing_lem_example :
    Raises
      (not_found 5)
      (Leaves memory no_records 0 0 empty_heap)
      (read memory (append_placement memory) 5 empty_heap)
    × Raises
        (not_found 5)
        (Leaves memory no_records 0 0 empty_heap)
        (update memory (append_placement memory) 5 (1 ∷ []) empty_heap)
    × Raises
        (not_found 5)
        (Leaves memory no_records 0 0 empty_heap)
        (delete memory (append_placement memory) 5 empty_heap)
missing_lem_example =
    missing_lem memory memory-IsReliable 5 (1 ∷ []) no_records empty_heap empty_heap-IsTable
      (omega arith) refl

abbrev first_table : Table
first_table = put 0 (some (7 ∷ 8 ∷ [])) no_records

insert_into_lem_example :
    Returns
      (λ id after.
        (id ≡ 0)
        × (no_records id ≡ none)
        × Leaves memory (put id (some (7 ∷ 8 ∷ [])) no_records) 32 1 empty_heap after)
      (insert_into memory (append_placement memory) 3 (7 ∷ 8 ∷ []) empty_heap)
insert_into_lem_example =
    insert_into_lem memory memory-IsReliable 3 (7 ∷ 8 ∷ []) no_records empty_heap empty_heap-IsTable
      (record { upto = omega arith; growth = omega arith }) (omega arith)
      (omega arith, (omega arith, tt))

-- A heap with one record.
abbrev first_heap : AppendHeap memory
first_heap = (insert_into memory (append_placement memory) 0 (7 ∷ 8 ∷ []) empty_heap).1

first_heap-Leaves : Leaves memory first_table 32 1 empty_heap first_heap
first_heap-Leaves =
    let made =
      insert_into_lem memory memory-IsReliable 0 (7 ∷ 8 ∷ []) no_records empty_heap
        empty_heap-IsTable (record { upto = omega arith; growth = omega arith }) (omega arith)
        (omega arith, (omega arith, tt)) in
    subst (Leaves memory first_table 32 1 empty_heap) (ap (λ r. r.1) (sym made.outcome)) (
      subst (λ id. Leaves memory (put id (some (7 ∷ 8 ∷ [])) no_records) 32 1 empty_heap made.state)
        made.post.0 made.post.2)

update_lem_example :
    Returns
      (λ _ after. Leaves memory (put 0 (some (1 ∷ [])) first_table) 31 0 first_heap after)
      (update memory (append_placement memory) 0 (1 ∷ []) first_heap)
update_lem_example =
    update_lem memory memory-IsReliable 0 (7 ∷ 8 ∷ []) (1 ∷ []) first_table first_heap
      first_heap-Leaves.is_table
      (HasRoom-after memory 63 31 32 1 first_table empty_heap first_heap (omega arith)
        (record { upto = omega arith; growth = omega arith }) first_heap-Leaves)
      (omega arith) refl (omega arith, tt)

-- A heap with staged bytes in each of its files.
abbrev staged_heap : AppendHeap memory
staged_heap = record empty_heap {
  data_file = record { paged_file = three_bytes; with_bucket = false; integrity = false };
  index = three_bytes;
  registry = some three_bytes;
}

commit_lem_example :
    Returns
      (λ _ t. IsCommitted memory memory-IsReliable (append_placement memory) staged_heap t)
      (commit memory (append_placement memory) staged_heap)
commit_lem_example =
    commit_lem memory memory-IsReliable (append_placement memory) staged_heap three_bytes-IsCoherent
      three_bytes-IsCoherent three_bytes-IsCoherent

-- A backend that cannot sync.
abbrev unsynced : BlockIo
unsynced = record memory { sync = λ file s. (err (io_error (os 5)), s) }

abbrev unsynced_heap : AppendHeap unsynced
unsynced_heap = record {
  io_state = tt;
  placement = created;
  data_file = record { paged_file = empty_file; with_bucket = false; integrity = false };
  index = three_bytes;
  registry = none;
  config = default_config;
  operations_since_sync = 0;
  armed = true;
}

abbrev flushed_heap : AppendHeap unsynced
flushed_heap = (before_index unsynced (append_placement unsynced) unsynced_heap).1

commit-keeps_index_example :
    (commit unsynced (append_placement unsynced) unsynced_heap
      ≡ (err (io_error (os 5)), flushed_heap))
    × (flushed_heap.index ≡ unsynced_heap.index)
unfolding flush_file
commit-keeps_index_example =
    commit-keeps_index unsynced (append_placement unsynced) unsynced_heap flushed_heap
      (io_error (os 5)) refl
