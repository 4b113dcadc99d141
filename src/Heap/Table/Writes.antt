-- ===== src/Heap/Table/Writes.antt =====
-- What a write of one record and a tombstone do to the table of a heap.
use uol_ms_project.Prelude.{
  ℕ, ◌+◌, ◌*◌, ◌<◌, ◌≤◌, ◌≡◌, ◌≢◌, refl, sym, ap, subst, ◌∙◌, Bool, false, Bool-cases, inl, inr,
  Option, none, some, All, length, ◌==◌, ==→eq, ==→ne, ne→==, arith,
}
use uol_ms_project.Bytes.{Bytes, IsByte, IsU16}
use uol_ms_project.Format.{page_size}
use uol_ms_project.Format.Slot
use uol_ms_project.Format.Slot.{Slot, live_slot, live, deleted}
use uol_ms_project.Io.{overlay, read_cells}
use uol_ms_project.Data.View.{limit}
use uol_ms_project.Records.{record_header_of}
use uol_ms_project.Index.{slot_bytes}
use uol_ms_project.Index.Slots.{id_limit, entry, read_cells-outside}
use uol_ms_project.Records.Parse.{length-record}
use uol_ms_project.Io.Parts.{read_cells-overlay}
use uol_ms_project.Heap.Table.{
  Table, put, record_bytes, HasRecord, RecordAt, IsStore, decode-encode_slot,
}

module _ (integrity : Bool) (cells cells' : ℕ → ℕ) (cursor : ℕ) (bytes : Bytes)
    (laid_over : (i : ℕ) → cells' i ≡ overlay cursor bytes cells i) where
  -- Bytes behind the cursor leave the records before it.
  HasRecord-kept :
      (id : ℕ) (old payload : Bytes)
      → HasRecord integrity cells cursor id old payload
      → HasRecord integrity cells' (cursor + length bytes) id old payload
  HasRecord-kept id old payload r = record {
    slot = r.slot;
    version = r.version;
    is_live = r.is_live;
    is_version = r.is_version;
    is_bytes = r.is_bytes;
    total = r.total;
    from = r.from;
    upto = omega (arith, r.upto);
    held =
        read_cells-outside cells' cells cursor bytes r.slot.offset r.slot.total_len laid_over
          (inl r.upto)
        ∙ r.held;
  }

  RecordAt-kept :
      (id : ℕ) (old : Bytes) (payload : Option Bytes)
      → RecordAt integrity cells cursor id old payload
      → RecordAt integrity cells' (cursor + length bytes) id old payload
  RecordAt-kept id old none r = r
  RecordAt-kept id old (some payload) r = HasRecord-kept id old payload r

-- The new record itself.
new-HasRecord :
    (integrity : Bool) (cells cells' : ℕ → ℕ) (cursor id version : ℕ) (payload : Bytes)
    → ((i : ℕ) → cells' i ≡ overlay cursor (record_bytes integrity id version payload) cells i)
    → IsU16 version
    → All IsByte payload
    → page_size ≤ cursor
    → cursor + (30 + length payload) + 2 * page_size ≤ limit
    → HasRecord integrity cells'
        (cursor + (30 + length payload))
        id
        (slot_bytes (some (record { offset = cursor; total_len = 30 + length payload })))
        payload
new-HasRecord integrity cells cells' cursor id version payload over v bytes from room = record {
  slot = record { offset = cursor; total_len = 30 + length payload };
  version = version;
  is_live =
      decode-encode_slot (record { offset = cursor; total_len = 30 + length payload })
        (record {
          some_offset = omega (arith, from);
          no_bit = omega (arith, room);
          total_len = omega (arith, room);
        });
  is_version = v;
  is_bytes = bytes;
  total = refl;
  from = from;
  upto = omega arith;
  held =
      ap (read_cells cells' cursor)
        (sym (length-record false (record_header_of integrity 0 id version payload) payload))
      ∙ read_cells-overlay cursor (record_bytes integrity id version payload) cells' cells over;
}

-- What a write of one record does to the bytes of the two files.
pub record IsWrite (integrity : Bool) (cells cells' index index' : ℕ → ℕ) (cursor id version : ℕ)
    (payload : Bytes) : Type 0 where
  pub laid_over :
      (i : ℕ) → cells' i ≡ overlay cursor (record_bytes integrity id version payload) cells i
  pub written :
      entry index' id
      ≡ slot_bytes (some (record { offset = cursor; total_len = 30 + length payload }))
  pub others : (k : ℕ) → k ≢ id → entry index' k ≡ entry index k

-- A write of one record changes one entry of the table.
pub IsStore-write :
    (table : Table) (integrity : Bool) (cells cells' index index' : ℕ → ℕ)
    (cursor next_id next_id' id version : ℕ) (payload : Bytes)
    → IsStore table integrity cells index cursor next_id
    → IsWrite integrity cells cells' index index' cursor id version payload
    → IsU16 version
    → All IsByte payload
    → cursor + (30 + length payload) + 2 * page_size ≤ limit
    → id < next_id'
    → next_id ≤ next_id'
    → next_id' ≤ id_limit
    → IsStore
        (put id (some payload) table)
        integrity
        cells'
        index'
        (cursor + (30 + length payload))
        next_id'
IsStore-write table integrity cells cells' index index' cursor next_id next_id' id version payload
      st w v bytes room used grows ids =
    record {
      from = omega (arith, st.from);
      upto = room;
      ids = ids;
      records = λ k small. elim (Bool-cases (k == id)) [
        | inl same ↦ rw same (
            subst (λ b. HasRecord integrity cells' (cursor + (30 + length payload)) k b payload)
              (sym (ap (entry index') (==→eq k id same) ∙ w.written))
              (subst
                (λ j.
                  HasRecord integrity cells' (cursor + (30 + length payload)) j
                    (slot_bytes
                      (some (record { offset = cursor; total_len = 30 + length payload })))
                    payload)
                (sym (==→eq k id same))
                (new-HasRecord integrity cells cells' cursor id version payload w.laid_over v bytes
                  st.from room)))
        | inr other ↦ rw other (
            subst (λ b. RecordAt integrity cells' (cursor + (30 + length payload)) k b (table k))
              (sym (w.others k (==→ne k id other)))
              (subst (λ n. RecordAt integrity cells' (cursor + n) k (entry index k) (table k))
                (length-record false (record_header_of integrity 0 id version payload) payload)
                (RecordAt-kept integrity cells cells' cursor
                  (record_bytes integrity id version payload) w.laid_over k (entry index k)
                  (table k) (st.records k small))))
      ];
      fresh = λ k past.
          let other : (k == id) ≡ false = ne→== k id (omega arith) in
          rw other (st.fresh k (omega arith));
    }

-- A tombstone takes one entry out of the table.
pub IsStore-delete :
    (table : Table) (integrity : Bool) (cells index index' : ℕ → ℕ) (cursor next_id id : ℕ)
    → IsStore table integrity cells index cursor next_id
    → Slot.decode (entry index' id) ≡ none
    → ((k : ℕ) → k ≢ id → entry index' k ≡ entry index k)
    → IsStore (put id none table) integrity cells index' cursor next_id
IsStore-delete table integrity cells index index' cursor next_id id st gone others = record {
  from = st.from;
  upto = st.upto;
  ids = st.ids;
  records = λ k small. elim (Bool-cases (k == id)) [
    | inl same ↦ rw same (ap (λ j. Slot.decode (entry index' j)) (==→eq k id same) ∙ gone)
    | inr other ↦ rw other (
        subst (λ b. RecordAt integrity cells cursor k b (table k))
          (sym (others k (==→ne k id other))) (st.records k small))
  ];
  fresh = λ k past. elim (Bool-cases (k == id)) [
    | inl same ↦ rw same refl
    | inr other ↦ rw other (st.fresh k past)
  ];
}
