-- ===== src/Heap/Lookups.antt =====
-- `read` and `delete` in the append layout, as operations on a table.
use uol_ms_project.Prelude.{
  true, ◌++◌, Bool, ℕ, ◌+◌, ◌*◌, ◌≤◌, ◌<◌, ◌≡◌, false, sym, ap, subst, ◌∙◌, some, length, arith,
}
use uol_ms_project.Prelude.Exec.{Returns, returns, Returns-bind, Returns-weaken}
use uol_ms_project.Format.RecordHeader.RoundTrip.{image, IsHeader}
use uol_ms_project.Format.Slot
use uol_ms_project.Bytes.{Bytes}
use uol_ms_project.Heap.{on_data, on_index}
use uol_ms_project.Heap.Abstract.{AppendHeap, IsTable, Leaves, SameHeap-Leaves, Leaves-then}
use uol_ms_project.Io.{read_cells, IsReliable, BlockIo}
use uol_ms_project.Heap.Table.{RecordAt, Table, HasRecord}
use uol_ms_project.Heap.Same.{SameHeap-index, Returns-on_data, Returns-on_index, SameHeap-data}
use uol_ms_project.Heap.Operations.{read}
use uol_ms_project.Index.Slots.{read_slot_lem, entry, id_limit}
use uol_ms_project.Placement.Append.{append_placement}
use uol_ms_project.Format.{page_size}
use uol_ms_project.Format.RecordHeader.{header_len}
use uol_ms_project.Data.Stage.Fresh.{Kept}
use uol_ms_project.Data.View.{limit, view}
use uol_ms_project.Format.RecordHeader.RoundTrip.{image, IsHeader}
use uol_ms_project.Records.{read_record, DataFile, record_header_of}
use uol_ms_project.Index.{read_slot}
use uol_ms_project.Records.Parse.{record_header_of-IsHeader}
use uol_ms_project.Records.Reads.{read_record_lem}

-- A record that the table holds can be read at the offset of its slot.
pub HasRecord-IsHeader :
    (integrity : Bool) (cells : ℕ → ℕ) (cursor id : ℕ) (bytes payload : Bytes)
    (r : HasRecord integrity cells cursor id bytes payload)
    → id < id_limit
    → cursor + 2 * page_size ≤ limit
    → IsHeader (record_header_of integrity 0 id r.version payload)
HasRecord-IsHeader integrity cells cursor id bytes payload r small upto =
    record_header_of-IsHeader integrity 0 id r.version payload (omega arith) (omega arith)
      r.is_version (omega (arith, r.total, r.upto)) r.is_bytes

-- The bytes of the record, as the data file reads them.
pub HasRecord-held :
    (integrity with_bucket : Bool) (cells : ℕ → ℕ) (cursor id : ℕ) (bytes payload : Bytes)
    (r : HasRecord integrity cells cursor id bytes payload)
    → with_bucket ≡ false
    → read_cells cells r.slot.offset (header_len with_bucket + length payload)
      ≡ image (record_header_of integrity 0 id r.version payload) with_bucket ++ payload
HasRecord-held integrity true cells cursor id bytes payload r wb = absurd (ground (arith, wb))
HasRecord-held integrity false cells cursor id bytes payload r wb =
    ap (read_cells cells r.slot.offset) (sym r.total) ∙ r.held

module _ (io : BlockIo) (reliable : IsReliable io) where
  -- Looking a slot up changes nothing that the heap stands for.
  pub slot_lem :
      (id : ℕ) (table : Table) (s : AppendHeap io)
      → IsTable io table s
      → id < id_limit
      → Returns
          (λ slot t. (slot ≡ Slot.decode (entry (view t.index) id)) × Leaves io table 0 0 s t)
          (on_index io (append_placement io) (read_slot io id) s)
  slot_lem id table s h small =
      Returns-weaken _
        (Returns-on_index io (append_placement io) (read_slot io id) s
          (read_slot_lem io reliable id s.index s.io_state h.plain.index_coherent small))
        (λ slot t ((found, kept), frame). (
          found ∙ ap (λ v. Slot.decode (entry v id)) (sym kept.same_view),
          SameHeap-Leaves io table s t h
              (SameHeap-index io (append_placement io) s t h.plain kept frame),
        ))

  -- A method of the data file that keeps what the file stands for.
  pub on_data-Leaves :
      (table : Table) (s t : AppendHeap io)
      → IsTable io table s
      → Kept s.data_file.paged_file t.data_file.paged_file
      → t.data_file ≡ record s.data_file { paged_file = t.data_file.paged_file }
      → t ≡ record s { data_file = t.data_file; io_state = t.io_state }
      → Leaves io table 0 0 s t
  on_data-Leaves table s t h kept file frame = SameHeap-Leaves io table s t h (
      SameHeap-data io (append_placement io) s t h.plain kept
        (frame ∙ ap (λ (d : DataFile). record s { data_file = d; io_state = t.io_state }) file))

  -- The record that a heap holds for a number of its table.
  pub record_at :
      (id : ℕ) (payload : Bytes) (table : Table) (s : AppendHeap io)
      → IsTable io table s
      → id < id_limit
      → table id ≡ some payload
      → HasRecord s.data_file.integrity
          (view s.data_file.paged_file)
          s.placement.cursor
          id
          (entry (view s.index) id)
          payload
  record_at id payload table s h small holds =
      subst
        (RecordAt s.data_file.integrity (view s.data_file.paged_file) s.placement.cursor id
          (entry (view s.index) id))
        holds (h.store.records id small)

  read_at_slot :
      (id : ℕ) (payload : Bytes) (table : Table) (s : AppendHeap io) (h : IsTable io table s)
      (small : id < id_limit) (holds : table id ≡ some payload)
      → let slot = HasRecord.slot (record_at id payload table s h small holds) in
        Returns
          (λ r after. (r.1 ≡ payload) × Leaves io table 0 0 s after)
          (on_data io (append_placement io) (read_record io slot.offset slot.total_len id) s)
  read_at_slot id payload table s h small holds =
      let r = record_at id payload table s h small holds in
      let total : header_len s.data_file.with_bucket + length payload ≡ r.slot.total_len =
        ap (λ b. header_len b + length payload) h.layout ∙ sym r.total in
      Returns-weaken _
        (Returns-on_data io (append_placement io) (read_record io r.slot.offset r.slot.total_len id)
          s
          (subst
            (λ n.
              Returns
                (λ q after.
                  (q.1 ≡ payload)
                  × Kept s.data_file.paged_file after.0.paged_file
                  × (after.0 ≡ record s.data_file { paged_file = after.0.paged_file }))
                (read_record io r.slot.offset n id (s.data_file, s.io_state)))
            total
            (Returns-weaken _
              (read_record_lem io reliable r.slot.offset 0 id r.version payload s.data_file
                s.io_state h.plain.data_coherent
                (HasRecord-IsHeader _ _ _ id _ payload r small h.store.upto)
                (omega (arith, total, r.upto, h.store.upto))
                (HasRecord-held _ s.data_file.with_bucket _ _ id _ payload r h.layout))
              (λ q after (a, b, c, d). (b, c, d)))))
        (λ q t ((b, c, d), frame). (b, on_data-Leaves table s t h c d frame))

  pub read_some_lem :
      (id : ℕ) (payload : Bytes) (table : Table) (s : AppendHeap io)
      → IsTable io table s
      → id < id_limit
      → table id ≡ some payload
      → Returns
          (λ found after. (found ≡ payload) × Leaves io table 0 0 s after)
          (read io (append_placement io) id s)
  unfolding read
  read_some_lem id payload table s h small holds =
      Returns-bind (on_index io (append_placement io) (read_slot io id)) _ {s = s}
        (slot_lem id table s h small)
        (λ slot t (found, kept).
          let r = record_at id payload table t kept.is_table small holds in
          rw (found ∙ r.is_live) (
            Returns-bind
              (on_data io (append_placement io) (read_record io r.slot.offset r.slot.total_len id))
              _ (read_at_slot id payload table t kept.is_table small holds)
              (λ q u (e, kept2). returns _ _ (e, Leaves-then io table table 0 0 s t u kept kept2))))
