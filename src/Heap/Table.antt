-- ===== src/Heap/Table.antt =====
-- The records of a heap as a table from numbers to payloads, and what the bytes of the data file and
-- of the index have to be for it.
pub mod Writes
use uol_ms_project.Prelude.{
  replicate, ℕ, ◌+◌, ◌*◌, ◌<◌, ◌≤◌, ◌≡◌, ◌≢◌, refl, sym, ap, subst, ◌∙◌, Bool, true, false,
  Bool-cases, inl, inr, Option, none, some, ◌++◌, All, length, ◌==◌, ==→eq, ==→ne, ==_refl, ne→==,
  if◌then◌else◌, arith,
}
use uol_ms_project.Bytes.{Bytes, IsByte, IsU16}
use uol_ms_project.Format.{page_size}
use uol_ms_project.Format.RecordHeader.{RecordHeader}
use uol_ms_project.Format.RecordHeader.RoundTrip.{image}
use uol_ms_project.Format.Slot
use uol_ms_project.Format.Slot.{Slot, live_slot, live, deleted}
use uol_ms_project.Format.Slot.RoundTrip.{IsSlot, state-encode}
use uol_ms_project.Io.{overlay, read_cells}
use uol_ms_project.Data.View.{limit}
use uol_ms_project.Records.{record_header_of}
use uol_ms_project.Index.{slot_bytes, marked}
use uol_ms_project.Index.Slots.{id_limit, entry, read_cells-outside}
use uol_ms_project.Records.Parse.{length-record}
use uol_ms_project.Io.Parts.{read_cells-overlay}

abbrev pub Table : Type 0
Table = ℕ → Option Bytes

-- The table with one entry changed.
abbrev pub put : ℕ → Option Bytes → Table → Table
put id payload table k = if k == id then payload else table k

-- The bytes of a record in the append layout.
abbrev pub record_bytes : Bool → ℕ → ℕ → Bytes → Bytes
record_bytes integrity id version payload =
    image (record_header_of integrity 0 id version payload) false ++ payload

-- The record `id` holds `payload`: its slot is live, and the record lies where the slot says, before
-- the cursor.
pub record HasRecord (integrity : Bool) (cells : ℕ → ℕ) (cursor id : ℕ) (bytes payload : Bytes)
    : Type 0 where
  pub slot : Slot
  pub version : ℕ
  pub is_live : Slot.decode bytes ≡ some slot
  pub is_version : IsU16 version
  pub is_bytes : All IsByte payload
  pub total : slot.total_len ≡ 30 + length payload
  pub from : page_size ≤ slot.offset
  pub upto : slot.offset + slot.total_len ≤ cursor
  pub held : read_cells cells slot.offset slot.total_len ≡ record_bytes integrity id version payload

abbrev pub RecordAt : Bool → (ℕ → ℕ) → ℕ → ℕ → Bytes → Option Bytes → Type 0
RecordAt integrity cells cursor id bytes none = Slot.decode bytes ≡ none
RecordAt integrity cells cursor id bytes (some payload) =
    HasRecord integrity cells cursor id bytes payload

-- The table that the bytes of the two files stand for.
pub record IsStore (table : Table) (integrity : Bool) (cells index : ℕ → ℕ) (cursor next_id : ℕ)
    : Type 0 where
  pub from : page_size ≤ cursor
  pub upto : cursor + 2 * page_size ≤ limit
  pub ids : next_id ≤ id_limit
  pub records :
      (id : ℕ) → id < id_limit → RecordAt integrity cells cursor id (entry index id) (table id)
  pub fresh : (id : ℕ) → next_id ≤ id → table id ≡ none

-- A live slot, decoded.
pub decode-encode_slot :
    (slot : Slot) → IsSlot slot → Slot.decode (slot_bytes (some slot)) ≡ some slot
unfolding Slot.decode
decode-encode_slot slot v = ap live_slot (state-encode slot (replicate 16 0) v (omega arith)).0

-- A slot with the tombstone bit is no live one.
pub decode-marked :
    (slot : Slot) → IsSlot slot → Slot.decode (slot_bytes (some (marked slot))) ≡ none
unfolding Slot.decode
decode-marked slot v = ap live_slot (state-encode slot (replicate 16 0) v (omega arith)).1

-- A slot of a record in the table is one that an index entry can hold.
pub HasRecord-IsSlot :
    (integrity : Bool) (cells : ℕ → ℕ) (cursor id : ℕ) (bytes payload : Bytes)
    (r : HasRecord integrity cells cursor id bytes payload)
    → cursor + 2 * page_size ≤ limit
    → IsSlot r.slot
HasRecord-IsSlot integrity cells cursor id bytes payload r h = record {
  some_offset = omega (arith, r.from);
  no_bit = omega (arith, r.upto);
  total_len = omega (arith, r.upto);
}
