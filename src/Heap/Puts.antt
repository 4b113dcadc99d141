-- ===== src/Heap/Puts.antt =====
-- What `insert_into` and `update` share in the append layout: the write of a record in the space
-- that it was granted.
use uol_ms_project.Prelude.{
  max, ◌-◌, ◌++◌, ℕ, ◌+◌, ◌≤◌, ◌<◌, ◌≡◌, false, sym, ap, subst, ◌∙◌, some, All, length, arith,
}
use uol_ms_project.Prelude.Exec.{Exec, Returns, Returns-bind, ◌>>◌}
use uol_ms_project.Format.RecordHeader.RoundTrip.{image}
use uol_ms_project.Bytes.{IsU16, Bytes, IsByte}
use uol_ms_project.Heap.{on_data, on_index}
use uol_ms_project.Heap.Abstract.{AppendHeap, IsTable, HasRoom, Leaves, settings}
use uol_ms_project.Io.{overlay, IsReliable, BlockIo}
use uol_ms_project.Data.View.{view, IsCoherent}
use uol_ms_project.Placement.{Files}
use uol_ms_project.Placement.Append.{AppendPlacement, append_placement}
use uol_ms_project.Heap.Table.{IsStore, put, Table}
use uol_ms_project.Index.Slots.{entry, stage_slot_lem, id_limit}
use uol_ms_project.Heap.Table.Writes.{IsStore-write, IsWrite}
use uol_ms_project.Records.{record_header_of, DataFile, stage_record}
use uol_ms_project.Index.{slot_bytes, stage_slot}
use uol_ms_project.Heap.Same.{Returns-on_index, Returns-on_data}
use uol_ms_project.Records.Reads.{stage_record_lem}
use uol_ms_project.Format.RecordHeader.{header_len}
use uol_ms_project.Data.{PagedFile}
use uol_ms_project.Format.{page_size}
use uol_ms_project.Placement.Append.Places.{SameFiles}

module _ (io : BlockIo) where
  -- Between an allocation and the write of its record: the space from `off` on is taken, the number
  -- is given, and nothing is written.
  pub record IsGranted (len off next_id : ℕ) (s t : AppendHeap io) : Type 0 where
    pub at : off ≡ s.placement.cursor
    pub cursor : t.placement.cursor ≡ off + (30 + len)
    pub number : t.placement.next_id ≡ next_id
    pub coherent : IsCoherent t.data_file.paged_file
    pub same_data : view t.data_file.paged_file ≡ view s.data_file.paged_file
    pub end :
        t.data_file.paged_file.allocated_end
        ≤ max s.data_file.paged_file.allocated_end
            (s.placement.cursor + (30 + len) + s.config.growth + page_size)
    pub index : t.index ≡ s.index
    pub same_settings : settings io t ≡ settings io s

  -- An allocation leaves the settings.
  pub files-settings :
      (s t : AppendHeap io)
      → SameFiles io
          (record { data_file = s.data_file; registry = s.registry; io_state = s.io_state })
          (record { data_file = t.data_file; registry = t.registry; io_state = t.io_state })
      → t ≡ record s {
        placement = t.placement;
        data_file = t.data_file;
        registry = t.registry;
        io_state = t.io_state;
      }
      → settings io t ≡ settings io s
  files-settings s t same frame =
      ap (settings io) frame
      ∙ ap
          (λ (f : Files io).
            (f.data_file.with_bucket, f.data_file.integrity, f.registry, s.config, s.armed))
          same

module _ (io : BlockIo) (reliable : IsReliable io) where
  written-IsTable :
      (table : Table) (s t : AppendHeap io) (id version : ℕ) (payload : Bytes)
      → IsTable io table s
      → HasRoom io (30 + length payload) s
      → IsCoherent t.data_file.paged_file
      → IsCoherent t.index
      → IsWrite s.data_file.integrity
          (view s.data_file.paged_file)
          (view t.data_file.paged_file)
          (view s.index)
          (view t.index)
          s.placement.cursor
          id
          version
          payload
      → settings io t ≡ settings io s
      → t.placement.cursor ≡ s.placement.cursor + (30 + length payload)
      → id < t.placement.next_id
      → s.placement.next_id ≤ t.placement.next_id
      → t.placement.next_id ≤ id_limit
      → IsU16 version
      → All IsByte payload
      → IsTable io (put id (some payload) table) t
  written-IsTable table s t id version payload h room a b w same cursor used grows ids v bytes =
      record {
        plain = record {
          data_coherent = a;
          index_coherent = b;
          no_registry = ap (λ c. c.2) same ∙ h.plain.no_registry;
        };
        layout = ap (λ c. c.0) same ∙ h.layout;
        store =
            subst
              (λ b.
                IsStore (put id (some payload) table) b (view t.data_file.paged_file) (view t.index)
                  t.placement.cursor t.placement.next_id)
              (sym (ap (λ c. c.1) same))
              (subst
                (λ c.
                  IsStore (put id (some payload) table) s.data_file.integrity
                    (view t.data_file.paged_file) (view t.index) c t.placement.next_id)
                (sym cursor)
                (IsStore-write table s.data_file.integrity (view s.data_file.paged_file)
                  (view t.data_file.paged_file) (view s.index) (view t.index) s.placement.cursor
                  s.placement.next_id t.placement.next_id id version payload h.store w v bytes
                  (omega (arith, room.upto)) used grows ids));
      }

  -- The rest of an operation that writes a record, from the space on that it was granted.
  pub put_record_lem :
      {A : Type 0} {Q : A → AppendHeap io → Type 0} (table : Table)
      (bucket id version off total next_id : ℕ) (payload : Bytes) (s t : AppendHeap io)
      (rest : Exec (AppendHeap io) A)
      → IsTable io table s
      → HasRoom io (30 + length payload) s
      → IsGranted io (length payload) off next_id s t
      → total ≡ 30 + length payload
      → id < next_id
      → s.placement.next_id ≤ next_id
      → next_id ≤ id_limit
      → IsU16 version
      → All IsByte payload
      → ((u : AppendHeap io)
          → Leaves io
              (put id (some payload) table)
              (30 + length payload)
              (next_id - s.placement.next_id)
              s
              u
          → Returns Q (rest u))
      → Returns Q (
          (on_data io (append_placement io) (stage_record io off bucket id version payload)
              >> (on_index io
                    (append_placement io)
                    (stage_slot io id (some (record { offset = off; total_len = total })))
                  >> rest))
            t)
  put_record_lem table bucket id version off total next_id payload s t rest h room g size used grows
        ids v bytes k =
      let wb : t.data_file.with_bucket ≡ false = ap (λ c. c.0) g.same_settings ∙ h.layout in
      Returns-bind
        (on_data io (append_placement io) (stage_record io off bucket id version payload)) _ {s = t}
        (Returns-on_data io (append_placement io) (stage_record io off bucket id version payload) t
          (stage_record_lem io reliable off bucket id version payload t.data_file t.io_state
            g.coherent (omega (arith, ap header_len wb, g.at, room.upto))))
        (λ u1 t1 ((st, frame1'), frame1).
          let index1 : t1.index ≡ s.index = ap (λ (q : AppendHeap io). q.index) frame1 ∙ g.index in
          let place1 : t1.placement ≡ t.placement =
            ap (λ (q : AppendHeap io). q.placement) frame1 in
          let same1 : settings io t1 ≡ settings io t =
            ap (settings io) frame1
            ∙ ap (λ (d : DataFile). (d.with_bucket, d.integrity, t.registry, t.config, t.armed))
                frame1' in
          Returns-bind
            (on_index io (append_placement io)
              (stage_slot io id (some (record { offset = off; total_len = total }))))
            _ {s = t1}
            (Returns-on_index io (append_placement io)
              (stage_slot io id (some (record { offset = off; total_len = total }))) t1
              (stage_slot_lem io reliable id (some (record { offset = off; total_len = total }))
                t1.index t1.io_state (subst IsCoherent (sym index1) h.plain.index_coherent)
                (omega arith)))
            (λ u2 t2 (e, frame2).
              let data2 : t2.data_file ≡ t1.data_file =
                ap (λ (q : AppendHeap io). q.data_file) frame2 in
              let place2 : t2.placement ≡ t.placement =
                ap (λ (q : AppendHeap io). q.placement) frame2 ∙ place1 in
              let same2 : settings io t2 ≡ settings io s =
                ap (settings io) frame2 ∙ same1 ∙ g.same_settings in
              let number2 : t2.placement.next_id ≡ next_id =
                ap (λ (q : AppendPlacement). q.next_id) place2 ∙ g.number in
              let integrity : t.data_file.integrity ≡ s.data_file.integrity =
                ap (λ c. c.1) g.same_settings in
              k t2 (record {
                is_table =
                    written-IsTable table s t2 id version payload h room
                      (subst (λ (d : DataFile). IsCoherent d.paged_file) (sym data2) st.coherent)
                      e.coherent
                      (record {
                        laid_over = λ i.
                            ap (λ (d : DataFile). view d.paged_file i) data2
                            ∙ st.laid_over i
                            ∙ (λ j.
                                overlay (g.at j)
                                  (image (record_header_of (integrity j) bucket id version payload)
                                      (wb j)
                                    ++ payload)
                                  (g.same_data j) i);
                        written = e.written ∙ (λ j.
                            slot_bytes (some (record { offset = g.at j; total_len = size j })));
                        others = λ j other.
                            e.others j other ∙ ap (λ (q : PagedFile). entry (view q) j) index1;
                      })
                      same2
                      (ap (λ (q : AppendPlacement). q.cursor) place2
                        ∙ g.cursor
                        ∙ ap (λ o. o + (30 + length payload)) g.at)
                      (omega (arith, number2)) (omega (arith, number2)) (omega (arith, number2)) v
                      bytes;
                same_settings = same2;
                used = omega (arith, ap (λ (q : AppendPlacement). q.cursor) place2, g.cursor, g.at);
                given = omega (arith, number2);
                end = omega (
                  arith,
                  ap (λ (d : DataFile). d.paged_file.allocated_end) data2,
                  st.same_end,
                  g.end,
                  ap (λ (q : AppendPlacement). q.cursor) place2,
                  g.cursor,
                  g.at,
                );
              })))
