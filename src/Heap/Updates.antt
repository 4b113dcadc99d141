-- ===== src/Heap/Updates.antt =====
-- `update` in the append layout, as an operation on a table.
use uol_ms_project.Prelude.{
  ◌-◌, ◌^◌, ◌%◌, ltb→le, add64, inr, ltb→lt, inl, All, length, ltb, arith, Bool-cases, ◌+◌, ℕ, ◌<◌,
  ◌≡◌, sym, ap, ◌∙◌, subst, some, none,
}
use uol_ms_project.Prelude.Exec.{Returns, Returns-bind, Returns-weaken, ◌>>=◌, ◌>>◌}
use uol_ms_project.Io.{BlockIo, IsReliable}
use uol_ms_project.Placement.Append
use uol_ms_project.Heap.{on_data, on_index, on_placement, after_write}
use uol_ms_project.Heap.Abstract.{
  HasRoom-after, SameHeap-Leaves, Returns-on_placement, Keeps-then, Leaves-then, HasRoom,
  AppendHeap, IsTable, Leaves,
}
use uol_ms_project.Bytes.{IsByte, Bytes}
use uol_ms_project.Heap.Table.{put, HasRecord, Table}
use uol_ms_project.Heap.Operations.{update}
use uol_ms_project.Index.Slots.{id_limit}
use uol_ms_project.Data.Allocation.{IsAllocated}
use uol_ms_project.Placement.Append.Places.{alloc_update_lem, SameFiles}
use uol_ms_project.Heap.Lookups.{
  on_data-Leaves, HasRecord-held, HasRecord-IsHeader, slot_lem, record_at,
}
use uol_ms_project.Heap.Puts.{put_record_lem, files-settings, IsGranted}
use uol_ms_project.Placement.Append.{append_placement, AppendPlacement}
use uol_ms_project.Records.{stage_record, record_header_len, read_header}
use uol_ms_project.Index.{stage_slot, read_slot}
use uol_ms_project.Format.RecordHeader.{header_len}
use uol_ms_project.Heap.Same.{Returns-on_data}
use uol_ms_project.Records.Reads.{read_header_lem}
use uol_ms_project.Heap.Commits.{after_write_lem}

module _ (io : BlockIo) (reliable : IsReliable io) where
  -- The header of the old record, which gives the next version.
  header_at_slot :
      (id : ℕ) (payload : Bytes) (table : Table) (s : AppendHeap io) (h : IsTable io table s)
      (small : id < id_limit) (holds : table id ≡ some payload)
      → let slot = HasRecord.slot (record_at io reliable id payload table s h small holds) in
        Returns
          (λ _ after. Leaves io table 0 0 s after)
          (on_data io (append_placement io) (read_header io slot.offset id) s)
  header_at_slot id payload table s h small holds =
      let r = record_at io reliable id payload table s h small holds in
      let total : header_len s.data_file.with_bucket + length payload ≡ r.slot.total_len =
        ap (λ b. header_len b + length payload) h.layout ∙ sym r.total in
      Returns-weaken _
        (Returns-on_data io (append_placement io) (read_header io r.slot.offset id) s (
          read_header_lem io reliable r.slot.offset 0 id r.version payload s.data_file s.io_state
            h.plain.data_coherent (HasRecord-IsHeader _ _ _ id _ payload r small h.store.upto)
            (omega (arith, total, r.upto, h.store.upto))
            (HasRecord-held _ s.data_file.with_bucket _ _ id _ payload r h.layout)))
        (λ q t ((a, c, d), frame). on_data-Leaves io reliable table s t h c d frame)

  update-IsGranted :
      (len total off : ℕ) (s t : AppendHeap io)
      → total ≡ 30 + len
      → off ≡ s.placement.cursor
      → t.placement ≡ record s.placement { cursor = s.placement.cursor + total }
      → IsAllocated
          (s.placement.cursor + total)
          s.config.growth
          s.data_file.paged_file
          t.data_file.paged_file
      → SameFiles io
          (record { data_file = s.data_file; registry = s.registry; io_state = s.io_state })
          (record { data_file = t.data_file; registry = t.registry; io_state = t.io_state })
      → t ≡ record s {
        placement = t.placement;
        data_file = t.data_file;
        registry = t.registry;
        io_state = t.io_state;
      }
      → IsGranted io len off s.placement.next_id s t
  update-IsGranted len total off s t size at place allocated same frame = record {
    at = at;
    cursor = omega (arith, ap (λ (q : AppendPlacement). q.cursor) place, size, at);
    number = ap (λ (q : AppendPlacement). q.next_id) place;
    coherent = allocated.coherent;
    same_data = allocated.same_view;
    end = omega (arith, allocated.at_most, size);
    index = ap (λ (q : AppendHeap io). q.index) frame;
    same_settings = files-settings io s t same frame;
  }

  -- From the look-up of the old record on.
  write_version :
      (id bucket version : ℕ) (payload : Bytes) (table : Table) (s : AppendHeap io)
      → IsTable io table s
      → HasRoom io (30 + length payload) s
      → id < s.placement.next_id
      → All IsByte payload
      → let total = add64 (record_header_len s.data_file) (length payload) in
        Returns
          (λ _ after. Leaves io (put id (some payload) table) (30 + length payload) 0 s after)
          ((on_placement io (append_placement io) (Append.alloc_update io s.config bucket total)
              >>= (λ off.
                  on_data io
                    (append_placement io)
                    (stage_record io off bucket id ((version + 1) % 2 ^ 16) payload)
                  >> (on_index io
                        (append_placement io)
                        (stage_slot io id (some (record { offset = off; total_len = total })))
                      >> after_write io (append_placement io))))
            s)
  write_version id bucket version payload table s h room known bytes =
      let total = add64 (record_header_len s.data_file) (length payload) in
      let size : total ≡ 30 + length payload = omega (arith, ap header_len h.layout, room.upto) in
      Returns-bind
        (on_placement io (append_placement io) (Append.alloc_update io s.config bucket total)) _
        {s = s}
        (Returns-on_placement io (Append.alloc_update io s.config bucket total) s (
          alloc_update_lem io reliable s.config bucket total s.placement
            (record { data_file = s.data_file; registry = s.registry; io_state = s.io_state })
            h.plain.data_coherent (omega (arith, size, room.upto)) room.growth))
        (λ off t ((at, place, allocated, same), frame).
          put_record_lem io reliable table bucket id ((version + 1) % 2 ^ 16) off total
            s.placement.next_id payload s t (after_write io (append_placement io)) h room
            (update-IsGranted (length payload) total off s t size at place allocated same frame)
            size known (omega arith) h.store.ids (omega arith) bytes
            (λ u done.
              Returns-weaken _
                (after_write_lem io reliable (append_placement io) u done.is_table.plain)
                (λ _ v kept.
                  Leaves-then io (put id (some payload) table) (put id (some payload) table)
                    (30 + length payload) 0 s u v
                    (subst
                      (λ n. Leaves io (put id (some payload) table) (30 + length payload) n s u)
                      none_given done)
                    (SameHeap-Leaves io (put id (some payload) table) u v done.is_table kept))))
    where
      none_given : s.placement.next_id - s.placement.next_id ≡ 0
      none_given = omega arith

  -- A number of the table was given out.
  given_lem :
      (id : ℕ) (payload : Bytes) (table : Table) (s : AppendHeap io)
      → IsTable io table s
      → table id ≡ some payload
      → id < s.placement.next_id
  given_lem id payload table s h holds = elim (Bool-cases (ltb id s.placement.next_id)) [
    | inl known ↦ ltb→lt _ _ known
    | inr past ↦
        let nothing : none ≡ some payload = sym (h.store.fresh id (ltb→le _ _ past)) ∙ holds in
        absurd (ground (arith, nothing))
  ]

  -- An update of a record of a heap in the append layout succeeds over a reliable backend, under the
  -- bounds of an insert: the heap then stands for the table with the new payload under the number,
  -- the cursor is 30 bytes and the payload further, and the next number is the same.
  pub update_lem :
      (id : ℕ) (old payload : Bytes) (table : Table) (s : AppendHeap io)
      → IsTable io table s
      → HasRoom io (30 + length payload) s
      → id < id_limit
      → table id ≡ some old
      → All IsByte payload
      → Returns
          (λ _ after. Leaves io (put id (some payload) table) (30 + length payload) 0 s after)
          (update io (append_placement io) id payload s)
  unfolding update
  update_lem id old payload table s h room small holds bytes =
      Returns-bind (on_index io (append_placement io) (read_slot io id)) _ {s = s}
        (slot_lem io reliable id table s h small)
        (λ slot t (found, kept).
          let r = record_at io reliable id old table t kept.is_table small holds in
          rw (found ∙ r.is_live) (
            Returns-bind (on_data io (append_placement io) (read_header io r.slot.offset id)) _
              (header_at_slot id old table t kept.is_table small holds)
              (λ header u kept2.
                let both = Leaves-then io table table 0 0 s t u kept kept2 in
                Returns-weaken _
                  (write_version id header.bucket header.version payload table u both.is_table
                    (HasRoom-after io (30 + length payload) (30 + length payload) 0 0 table s u
                      (omega arith) room both)
                    (given_lem id old table u both.is_table holds) bytes)
                  (λ _ v done.
                    Keeps-then io table (put id (some payload) table) (30 + length payload) 0 s u v
                      both done))))
