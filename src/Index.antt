-- ===== src/Index.antt =====
-- src/index.rs: the index file, one slot of 16 bytes for each record number. `IndexFile` has one
-- field, its paged file, which stands for it here.
pub mod Batch
pub mod Slots
use uol_ms_project.Prelude.{
  ℕ, ◌+◌, ◌/◌, Option, none, some, List, [], ◌∷◌, replicate, slice, bit_or,
}
use uol_ms_project.Prelude.Exec.{Exec, pure, modify, ◌>>=◌, ◌>>◌}
use uol_ms_project.Bytes.{Bytes}
use uol_ms_project.Format.{page_size, slot_size}
use uol_ms_project.Format.Slot
use uol_ms_project.Format.Slot.{Slot, SlotState, tombstone_bit, file_offset}
use uol_ms_project.Io.{BlockIo}
use uol_ms_project.Data.{PagedFile}
use uol_ms_project.Data.Access.{recycle}
use uol_ms_project.Data.Files.{read_aligned}
use uol_ms_project.Data.Stage.{stage}

abbrev pub slots_per_page : ℕ
slots_per_page = page_size / slot_size

-- The 16 bytes that `stage_slot` writes.
abbrev pub slot_bytes : Option Slot → Bytes
slot_bytes none = replicate slot_size 0
slot_bytes (some slot) = Slot.encode slot (replicate slot_size 0)

-- A slot with the tombstone bit in its offset.
abbrev pub marked : Slot → Slot
marked slot = record { offset = bit_or slot.offset tombstone_bit; total_len = slot.total_len }

module _ (io : BlockIo) where
  open io use {Io}

  unfoldable pub stage_slot : ℕ → Option Slot → Exec (PagedFile × Io) (Unit {0})
  stage_slot id slot = stage io (file_offset id) (slot_bytes slot ∷ [])

  unfoldable pub stage_tombstone : ℕ → Slot → Exec (PagedFile × Io) (Unit {0})
  stage_tombstone id old_slot = stage io (file_offset id) (slot_bytes (some (marked old_slot)) ∷ [])

  unfoldable pub read_slot_state : ℕ → Exec (PagedFile × Io) SlotState
  read_slot_state id = do
    found ← read_aligned io (file_offset id) slot_size
    modify (λ s. (recycle found.0 s.0, s.1))
    pure (Slot.state (slice found.1 (found.1 + slot_size) found.0.content))

  unfoldable pub read_slot : ℕ → Exec (PagedFile × Io) (Option Slot)
  read_slot id = do
    found ← read_aligned io (file_offset id) slot_size
    modify (λ s. (recycle found.0 s.0, s.1))
    pure (Slot.decode (slice found.1 (found.1 + slot_size) found.0.content))
