-- ===== src/Heap.antt =====
-- src/heap.rs: the heap, which puts a record where its placement policy says and its slot into the
-- index, and commits both by its sync policy.
pub mod Operations
pub mod Same
pub mod Commits
pub mod Durable
pub mod Table
pub mod Abstract
pub mod Puts
pub mod Inserts
pub mod Lookups
pub mod Updates
pub mod Deletes
pub mod Missing
pub mod Requests
use uol_ms_project.Prelude.{
  add64, ℕ, zero, suc, ◌+◌, ◌%◌, ◌^◌, Bool, true, false, ◌&&◌, Option, none, some, ◌==◌, ltb,
  if◌then◌else◌,
}
use uol_ms_project.Prelude.Exec.{Exec, pure, raise, gets, modify, lift, ◌>>=◌, ◌>>◌}
use uol_ms_project.Io.{BlockIo, IoCounters}
use uol_ms_project.Data.{PagedFile, has_pending}
use uol_ms_project.Data.Flush.{flush as flush_file}
use uol_ms_project.Data.Files
use uol_ms_project.Records.{DataFile}
use uol_ms_project.Placement.{HeapConfig, SyncPolicy, never, every_n, Files, Placement}

pub record Heap (io : BlockIo) (policy : Placement io) : Type 0 where
  pub io_state : BlockIo.Io io
  pub placement : Placement.P policy
  pub data_file : DataFile
  pub index : PagedFile
  pub registry : Option PagedFile
  pub config : HeapConfig
  pub operations_since_sync : ℕ
  pub armed : Bool

module _ (io : BlockIo) (policy : Placement io) where
  open io use {Io, sync}

  -- A method of one part of the heap, with the I/O backend beside it.
  abbrev pub on_data : {A : Type 0} → Exec (DataFile × Io) A → Exec (Heap io policy) A
  on_data method s =
      let r = method (s.data_file, s.io_state) in
      (r.0, record s { data_file = r.1.0; io_state = r.1.1 })

  abbrev pub on_index : {A : Type 0} → Exec (PagedFile × Io) A → Exec (Heap io policy) A
  on_index method s =
      let r = method (s.index, s.io_state) in (r.0, record s { index = r.1.0; io_state = r.1.1 })

  -- `if let Some(registry_file) = &mut self.registry`
  abbrev pub on_registry : Exec (PagedFile × Io) (Unit {0}) → Exec (Heap io policy) (Unit {0})
  on_registry method s = elim s.registry [
    | none ↦ (pure tt) s
    | some paged ↦
        let r = method (paged, s.io_state) in
        (r.0, record s { registry = some r.1.0; io_state = r.1.1 })
  ]

  -- A method of the placement policy, which has the data file and the registry at hand.
  abbrev pub on_placement :
      {A : Type 0} → Exec (Placement.P policy × Files io) A → Exec (Heap io policy) A
  on_placement method s =
      let r = method (
        s.placement,
        record { data_file = s.data_file; registry = s.registry; io_state = s.io_state },
      ) in
      (
        r.0,
        record s {
          placement = r.1.0;
          data_file = r.1.1.data_file;
          registry = r.1.1.registry;
          io_state = r.1.1.io_state;
        },
      )

  -- `io.sync(&paged_file.file)`
  abbrev pub sync_file : Exec (PagedFile × Io) (Unit {0})
  sync_file s = let r = sync s.0.file s.1 in (r.0, (s.0, r.1))

  abbrev pub in_data : Exec (PagedFile × Io) (Unit {0}) → Exec (Heap io policy) (Unit {0})
  in_data method s =
      let r = method (s.data_file.paged_file, s.io_state) in
      (r.0, record s { data_file = record s.data_file { paged_file = r.1.0 }; io_state = r.1.1 })

  -- The registry is flushed and synced only if it has staged rows.
  unfoldable pub commit_registry : Exec (PagedFile × Io) (Unit {0})
  commit_registry = do
    pending ← gets (λ s. has_pending s.0)
    if pending then (do flush_file io; sync_file) else pure tt

  unfoldable pub commit : Exec (Heap io policy) (Unit {0})
  unfolding commit_registry
  commit = do
    on_registry commit_registry
    in_data (flush_file io)
    in_data sync_file
    on_index (flush_file io)

  unfoldable pub flush : Exec (Heap io policy) (Unit {0})
  unfolding commit
  flush = do commit; on_index (flush_file io); on_index sync_file; on_registry sync_file

  -- The sync policy asks for a commit after this many operations.
  abbrev pub interval_reached : SyncPolicy → ℕ → Bool
  interval_reached never operations = false
  interval_reached (every_n interval) operations = ltb 0 interval && operations % interval == 0

  abbrev pub pending_bytes : Heap io policy → ℕ
  pending_bytes s = add64 s.data_file.paged_file.pending_bytes s.index.pending_bytes

  unfoldable pub after_write : Exec (Heap io policy) (Unit {0})
  unfolding commit
  after_write = do
    modify (λ s. record s { operations_since_sync = (s.operations_since_sync + 1) % 2 ^ 32 })
    due ← gets (λ s. interval_reached s.config.sync_policy s.operations_since_sync)
    large ← gets (λ s. ltb s.config.pending_limit (pending_bytes s))
    if due then commit else if large then commit else pure tt

  abbrev pub io_counters : Heap io policy → IoCounters
  io_counters s = BlockIo.counters io s.io_state

  abbrev pub reset_io_counters : Heap io policy → Heap io policy
  reset_io_counters s = record s { io_state = BlockIo.reset_counters io s.io_state }

  abbrev pub simulate_crash : Heap io policy → Heap io policy
  simulate_crash s = record s { armed = false }

  -- `drop`, with the state that the flush leaves; its result is dropped.
  unfoldable pub drop_heap : Heap io policy → Heap io policy
  unfolding flush
  drop_heap s = if s.armed then (flush s).1 else s
