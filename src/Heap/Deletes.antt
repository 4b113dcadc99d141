-- ===== src/Heap/Deletes.antt =====
-- `delete` in the append layout, as an operation on a table.
use uol_ms_project.Prelude.{arith, ℕ, ◌<◌, ◌≡◌, sym, ap, ◌∙◌, subst, some, none}
use uol_ms_project.Prelude.Exec.{Returns, Returns-bind, Returns-weaken}
use uol_ms_project.Io.{BlockIo, IsReliable}
use uol_ms_project.Format.Slot
use uol_ms_project.Heap.{on_index}
use uol_ms_project.Heap.Abstract.{
  SameHeap-Leaves, Leaves-then, AppendHeap, IsTable, Leaves, settings,
}
use uol_ms_project.Format.Slot.{Slot}
use uol_ms_project.Heap.Operations.{delete}
use uol_ms_project.Bytes.{Bytes}
use uol_ms_project.Heap.Table.{decode-marked, IsStore, HasRecord-IsSlot, put, Table}
use uol_ms_project.Format.Slot.RoundTrip.{IsSlot}
use uol_ms_project.Index.Slots.{stage_tombstone_lem, IsEntry, id_limit}
use uol_ms_project.Placement.Append.{AppendPlacement, append_placement}
use uol_ms_project.Index.{stage_tombstone, marked, read_slot, slot_bytes}
use uol_ms_project.Records.{DataFile}
use uol_ms_project.Heap.Lookups.{record_at, slot_lem}
use uol_ms_project.Data.View.{view, IsCoherent}
use uol_ms_project.Heap.Same.{Returns-on_index}
use uol_ms_project.Heap.Table.Writes.{IsStore-delete}
use uol_ms_project.Heap.Commits.{after_write_lem}

module _ (io : BlockIo) (reliable : IsReliable io) where
  -- The staged tombstone.
  tombstone-Leaves :
      (id : ℕ) (slot : Slot) (table : Table) (s t : AppendHeap io)
      → IsTable io table s
      → IsSlot slot
      → IsEntry id (slot_bytes (some (marked slot))) s.index t.index
      → t ≡ record s { index = t.index; io_state = t.io_state }
      → Leaves io (put id none table) 0 0 s t
  tombstone-Leaves id slot table s t h v e frame = record {
    is_table = record {
      plain = record {
        data_coherent =
            subst (λ (d : DataFile). IsCoherent d.paged_file) (sym file) h.plain.data_coherent;
        index_coherent = e.coherent;
        no_registry = ap (λ (q : AppendHeap io). q.registry) frame ∙ h.plain.no_registry;
      };
      layout = ap (λ (d : DataFile). d.with_bucket) file ∙ h.layout;
      store =
          subst
            (λ (c : DataFile × AppendPlacement).
              IsStore (put id none table) c.0.integrity (view c.0.paged_file) (view t.index)
                c.1.cursor c.1.next_id)
            (λ i. (sym file i, sym place i))
            (IsStore-delete table s.data_file.integrity (view s.data_file.paged_file) (view s.index)
              (view t.index) s.placement.cursor s.placement.next_id id h.store
              (ap Slot.decode e.written ∙ decode-marked slot v) e.others);
    };
    same_settings = ap (settings io) frame;
    used = omega (arith, ap (λ (q : AppendPlacement). q.cursor) place);
    given = omega (arith, ap (λ (q : AppendPlacement). q.next_id) place);
    end = omega (arith, ap (λ (d : DataFile). d.paged_file.allocated_end) file);
  }
    where
      file : t.data_file ≡ s.data_file
      file = ap (λ (q : AppendHeap io). q.data_file) frame

      place : t.placement ≡ s.placement
      place = ap (λ (q : AppendHeap io). q.placement) frame

  pub delete_lem :
      (id : ℕ) (payload : Bytes) (table : Table) (s : AppendHeap io)
      → IsTable io table s
      → id < id_limit
      → table id ≡ some payload
      → Returns
          (λ _ after. Leaves io (put id none table) 0 0 s after)
          (delete io (append_placement io) id s)
  unfolding delete
  delete_lem id payload table s h small holds =
      Returns-bind (on_index io (append_placement io) (read_slot io id)) _ {s = s}
        (slot_lem io reliable id table s h small)
        (λ slot t (found, kept).
          let r = record_at io reliable id payload table t kept.is_table small holds in
          let v = HasRecord-IsSlot _ _ _ id _ payload r kept.is_table.store.upto in
          rw (found ∙ r.is_live) (
            Returns-bind (on_index io (append_placement io) (stage_tombstone io id r.slot)) _
              (Returns-on_index io (append_placement io) (stage_tombstone io id r.slot) t (
                stage_tombstone_lem io reliable id r.slot t.index t.io_state
                  kept.is_table.plain.index_coherent small))
              (λ _ u (e, frame).
                let gone = tombstone-Leaves id r.slot table t u kept.is_table v e frame in
                Returns-weaken _
                  (after_write_lem io reliable (append_placement io) u gone.is_table.plain)
                  (λ _ w same. Leaves-then io table (put id none table) 0 0 s t w kept (
                    Leaves-then io (put id none table) (put id none table) 0 0 t u w gone
                      (SameHeap-Leaves io (put id none table) u w gone.is_table same))))))
