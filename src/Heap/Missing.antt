-- ===== src/Heap/Missing.antt =====
-- Numbers that no record has.
use uol_ms_project.Prelude.{subst, ℕ, ◌<◌, ◌≡◌, refl, ◌∙◌, none}
use uol_ms_project.Prelude.Exec.{lift, Exec, Raises, Raises-bind, ◌>>=◌}
use uol_ms_project.Error.{not_found}
use uol_ms_project.Io.{BlockIo, IsReliable}
use uol_ms_project.Format.Slot
use uol_ms_project.Heap.{on_index}
use uol_ms_project.Heap.Abstract.{AppendHeap, IsTable, Leaves}
use uol_ms_project.Heap.Table.{RecordAt, Table}
use uol_ms_project.Heap.Operations.{found_slot, delete, update, read}
use uol_ms_project.Format.Slot.{Slot}
use uol_ms_project.Index.Slots.{entry, id_limit}
use uol_ms_project.Placement.Append.{append_placement}
use uol_ms_project.Bytes.{Bytes}
use uol_ms_project.Index.{read_slot}
use uol_ms_project.Data.View.{view}
use uol_ms_project.Heap.Lookups.{slot_lem}

module _ (io : BlockIo) (reliable : IsReliable io) where
  -- An operation that begins with the look-up of the slot.
  no_slot_lem :
      {A : Type 0} (id : ℕ) (table : Table) (s : AppendHeap io)
      (rest : Slot → Exec (AppendHeap io) A)
      → IsTable io table s
      → id < id_limit
      → table id ≡ none
      → Raises (not_found id) (Leaves io table 0 0 s) (
          (on_index io (append_placement io) (read_slot io id)
              >>= (λ entry. lift (found_slot id entry) >>= rest))
            s)
  no_slot_lem id table s rest h small missing =
      Raises-bind (on_index io (append_placement io) (read_slot io id)) _ {s = s}
        (slot_lem io reliable id table s h small)
        (λ slot t (found, kept).
          let gone : slot ≡ none = found ∙ empty_at t kept.is_table in
          rw gone (record { state = t; outcome = refl; post = kept }))
    where
      empty_at :
          (t : AppendHeap io) → IsTable io table t → Slot.decode (entry (view t.index) id) ≡ none
      empty_at t g =
          subst
            (RecordAt t.data_file.integrity (view t.data_file.paged_file) t.placement.cursor id
              (entry (view t.index) id))
            missing (g.store.records id small)

  -- For a number that the table of a heap in the append layout does not have, below 2 ^ 56, a read,
  -- an update and a delete over a reliable backend fail with the error not found; the heap stands
  -- for the same table afterwards, with the same cursor and the same next number.
  pub missing_lem :
      (id : ℕ) (payload : Bytes) (table : Table) (s : AppendHeap io)
      → IsTable io table s
      → id < id_limit
      → table id ≡ none
      → Raises (not_found id) (Leaves io table 0 0 s) (read io (append_placement io) id s)
        × Raises
            (not_found id)
            (Leaves io table 0 0 s)
            (update io (append_placement io) id payload s)
        × Raises (not_found id) (Leaves io table 0 0 s) (delete io (append_placement io) id s)
  unfolding read update delete
  missing_lem id payload table s h small missing = (
    no_slot_lem id table s _ h small missing,
    no_slot_lem id table s _ h small missing,
    no_slot_lem id table s _ h small missing,
  )
