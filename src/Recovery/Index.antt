-- ===== src/Recovery/Index.antt =====
-- The index that `rebuild` of src/recovery.rs writes for the records that it kept.
pub mod Writes
use uol_ms_project.Prelude.{ℕ, ◌*◌, ◌^◌, Option, none, some, List, [], ◌∷◌, ltb, if◌then◌else◌}
use uol_ms_project.Prelude.Exec.{Exec, pure, raise, gets, ◌>>=◌, ◌>>◌}
use uol_ms_project.Error.{panic}
use uol_ms_project.Format.Slot.{Slot}
use uol_ms_project.Io.{BlockIo}
use uol_ms_project.Data.{PagedFile}
use uol_ms_project.Data.Access.{on_io}
use uol_ms_project.Data.Flush.{flush}
use uol_ms_project.Index.{stage_slot}
use uol_ms_project.Recovery.{Latest}

abbrev pub slot_of : Latest → Slot
slot_of entry = record { offset = entry.offset; total_len = entry.record_len }

module _ (io : BlockIo) where
  -- The slot of one record; `latest_records[&id]` panics where there is none.
  unfoldable pub stage_latest : ℕ → Option Latest → Exec (PagedFile × BlockIo.Io io) (Unit {0})
  stage_latest id none = raise panic
  stage_latest id (some entry) = do
    stage_slot io id (some (slot_of entry))
    pending ← gets (λ s. s.0.pending_bytes)
    if ltb (4 * 2 ^ 20) pending then flush io else pure tt

  -- The loop over the record numbers, which are sorted.
  unfoldable pub stage_ids :
      (ℕ → Option Latest) → List ℕ → Exec (PagedFile × BlockIo.Io io) (Unit {0})
  unfolding stage_latest
  stage_ids latest_records [] = pure tt
  stage_ids latest_records (id ∷ ids) = do
    stage_latest id (latest_records id)
    stage_ids latest_records ids

  -- The loop, and the flush and the sync behind it.
  unfoldable pub write_index :
      (ℕ → Option Latest) → List ℕ → Exec (PagedFile × BlockIo.Io io) (Unit {0})
  unfolding stage_ids
  write_index latest_records ids = do
    stage_ids latest_records ids
    flush io
    on_io io (λ file. BlockIo.sync io file)
