-- ===== src/Heap/Operations.antt =====
-- The operations on records of src/heap.rs.
use uol_ms_project.Prelude.{ℕ, ◌+◌, ◌%◌, ◌^◌, Option, none, some, List, [], ◌∷◌, length, add64}
use uol_ms_project.Prelude.Exec.{Exec, pure, gets, lift, ◌>>=◌, ◌>>◌}
use uol_ms_project.Error.{Result, ok, err, not_found}
use uol_ms_project.Bytes.{Bytes}
use uol_ms_project.Format.Slot.{Slot}
use uol_ms_project.Io.{BlockIo}
use uol_ms_project.Records.{record_header_len, stage_record, read_record, read_header}
use uol_ms_project.Records.Batch.{read_many}
use uol_ms_project.Index.{stage_slot, stage_tombstone, read_slot}
use uol_ms_project.Index.Batch.{read_slots}
use uol_ms_project.Placement.{Placement}
use uol_ms_project.Heap.{Heap, on_data, on_index, on_placement, after_write}

-- `slot.ok_or(HeapError::NotFound(id))`
abbrev pub found_slot : ℕ → Option Slot → Result Slot
found_slot id none = err (not_found id)
found_slot id (some slot) = ok slot

-- The loop of `read_batch` over the slots.
abbrev pub batch_items : List ℕ → List (Option Slot) → Result (List (ℕ × ℕ × ℕ))
batch_items [] slots = ok []
batch_items (id ∷ ids) [] = ok []
batch_items (id ∷ ids) (none ∷ slots) = err (not_found id)
batch_items (id ∷ ids) (some slot ∷ slots) = elim (batch_items ids slots) [
  | ok items ↦ ok ((slot.offset, slot.total_len, id) ∷ items)
  | err e ↦ err e
]

module _ (io : BlockIo) (policy : Placement io) where
  unfoldable pub insert_into : ℕ → Bytes → Exec (Heap io policy) ℕ
  insert_into bucket payload = do
    header_len ← gets (λ s. record_header_len s.data_file)
    config ← gets (λ s. s.config)
    let total = add64 header_len (length payload)
    placed ← on_placement io policy (Placement.alloc policy config bucket total)
    on_data io policy (stage_record io placed.0 bucket placed.1 1 payload)
    on_index io policy
        (stage_slot io placed.1 (some (record { offset = placed.0; total_len = total })))
    after_write io policy
    pure placed.1

  unfoldable pub insert : Bytes → Exec (Heap io policy) ℕ
  unfolding insert_into
  insert payload = insert_into 0 payload

  unfoldable pub read : ℕ → Exec (Heap io policy) Bytes
  read id = do
    entry ← on_index io policy (read_slot io id)
    slot ← lift (found_slot id entry)
    out ← on_data io policy (read_record io slot.offset slot.total_len id)
    pure out.1

  unfoldable pub read_batch : List ℕ → Exec (Heap io policy) (List Bytes)
  read_batch ids = do
    slots ← on_index io policy (read_slots io ids)
    items ← lift (batch_items ids slots)
    on_data io policy (read_many io items)

  unfoldable pub update : ℕ → Bytes → Exec (Heap io policy) (Unit {0})
  update id payload = do
    entry ← on_index io policy (read_slot io id)
    slot ← lift (found_slot id entry)
    old ← on_data io policy (read_header io slot.offset id)
    header_len ← gets (λ s. record_header_len s.data_file)
    config ← gets (λ s. s.config)
    let total = add64 header_len (length payload)
    off ← on_placement io policy (Placement.alloc_update policy config old.bucket total)
    on_data io policy (stage_record io off old.bucket id ((old.version + 1) % 2 ^ 16) payload)
    on_index io policy (stage_slot io id (some (record { offset = off; total_len = total })))
    after_write io policy

  unfoldable pub delete : ℕ → Exec (Heap io policy) (Unit {0})
  delete id = do
    entry ← on_index io policy (read_slot io id)
    old ← lift (found_slot id entry)
    on_index io policy (stage_tombstone io id old)
    after_write io policy
