-- ===== src/Heap/Inserts.antt =====
-- `insert_into` in the append layout, as an operation on a table.
use uol_ms_project.Prelude.{
  ◌-◌, add64, ℕ, ◌+◌, ◌<◌, ◌≡◌, ap, subst, ◌∙◌, none, some, All, length, arith,
}
use uol_ms_project.Prelude.Exec.{pure, Returns, returns, Returns-bind, ◌>>◌}
use uol_ms_project.Bytes.{Bytes, IsByte}
use uol_ms_project.Placement.Append
use uol_ms_project.Heap.{on_placement, after_write}
use uol_ms_project.Heap.Abstract.{
  Returns-on_placement, AppendHeap, IsTable, HasRoom, Leaves, SameHeap-Leaves, Leaves-then,
}
use uol_ms_project.Io.{IsReliable, BlockIo}
use uol_ms_project.Placement.Append.Places.{place_lem, SameFiles, IsPlaced}
use uol_ms_project.Heap.Operations.{insert_into}
use uol_ms_project.Heap.Table.{put, Table}
use uol_ms_project.Heap.Puts.{files-settings, put_record_lem, IsGranted}
use uol_ms_project.Index.Slots.{id_limit}
use uol_ms_project.Placement.Append.{append_placement}
use uol_ms_project.Records.{record_header_len}
use uol_ms_project.Format.RecordHeader.{header_len}
use uol_ms_project.Heap.Commits.{after_write_lem}

module _ (io : BlockIo) (reliable : IsReliable io) where
  -- What an allocation leaves, as far as the write of the record needs it.
  alloc-IsGranted :
      (len total : ℕ) (s t : AppendHeap io) (r : ℕ × ℕ)
      → total ≡ 30 + len
      → IsPlaced total s.config.growth s.placement s.data_file.paged_file r t.placement
          t.data_file.paged_file
      → SameFiles io
          (record { data_file = s.data_file; registry = s.registry; io_state = s.io_state })
          (record { data_file = t.data_file; registry = t.registry; io_state = t.io_state })
      → t ≡ record s {
        placement = t.placement;
        data_file = t.data_file;
        registry = t.registry;
        io_state = t.io_state;
      }
      → IsGranted io len r.0 (s.placement.next_id + 1) s t
  alloc-IsGranted len total s t r size p same frame = record {
    at = ap (λ q. q.0) p.place;
    cursor = p.next_place ∙ ap (λ n. r.0 + n) size;
    number = p.next_number ∙ ap (λ q. q.1 + 1) p.place;
    coherent = p.allocated.coherent;
    same_data = p.allocated.same_view;
    end = omega (arith, p.allocated.at_most, size, ap (λ q. q.0) p.place);
    index = ap (λ (q : AppendHeap io). q.index) frame;
    same_settings = files-settings io s t same frame;
  }

  -- An insert into a heap in the append layout succeeds over a reliable backend. Its number is the
  -- next one, which no record had; afterwards the heap stands for the table with the payload under
  -- that number, the cursor is 30 bytes and the payload further, and the next number is one more,
  -- whatever bucket is named and whether or not the insert commits. The payload is bytes, the
  -- number is below 2 ^ 56, and the record fits with twice the growth of the file and three pages
  -- below 2 ^ 63.
  pub insert_into_lem :
      (bucket : ℕ) (payload : Bytes) (table : Table) (s : AppendHeap io)
      → IsTable io table s
      → HasRoom io (30 + length payload) s
      → s.placement.next_id < id_limit
      → All IsByte payload
      → Returns
          (λ id after.
            (id ≡ s.placement.next_id)
            × (table id ≡ none)
            × Leaves io (put id (some payload) table) (30 + length payload) 1 s after)
          (insert_into io (append_placement io) bucket payload s)
  unfolding insert_into
  insert_into_lem bucket payload table s h room number bytes =
      let total = add64 (record_header_len s.data_file) (length payload) in
      let size : total ≡ 30 + length payload = omega (arith, ap header_len h.layout, room.upto) in
      Returns-bind (on_placement io (append_placement io) (Append.alloc io s.config bucket total)) _
        {s = s}
        (Returns-on_placement io (Append.alloc io s.config bucket total) s (
          place_lem io reliable s.config bucket total s.placement
            (record { data_file = s.data_file; registry = s.registry; io_state = s.io_state })
            h.plain.data_coherent (omega (arith, size, room.upto)) room.growth (omega arith)))
        (λ r t ((p, same), frame).
          let given : r.1 ≡ s.placement.next_id = ap (λ q. q.1) p.place in
          put_record_lem io reliable table bucket r.1 1 r.0 total (s.placement.next_id + 1) payload
            s t (after_write io (append_placement io) >> pure r.1) h room
            (alloc-IsGranted (length payload) total s t r size p same frame) size
            (omega (arith, given)) (omega arith) (omega arith) (omega arith) bytes
            (λ u done.
              Returns-bind (after_write io (append_placement io)) _
                (after_write_lem io reliable (append_placement io) u done.is_table.plain)
                (λ _ v kept. returns _ _ (
                  given,
                  h.store.fresh r.1 (omega (arith, given)),
                  Leaves-then io (put r.1 (some payload) table) (put r.1 (some payload) table)
                      (30 + length payload) 1 s u v
                      (subst
                        (λ n. Leaves io (put r.1 (some payload) table) (30 + length payload) n s u)
                        one done)
                      (SameHeap-Leaves io (put r.1 (some payload) table) u v done.is_table kept),
                ))))
    where
      one : s.placement.next_id + 1 - s.placement.next_id ≡ 1
      one = omega arith
