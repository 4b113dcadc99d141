-- ===== src/Format/Slot.antt =====
-- `Slot` of src/format.rs: an index entry. An offset of 0 is an empty slot, and the top bit of the
-- offset marks a deleted one.
pub mod RoundTrip
use uol_ms_project.Prelude.{
  ℕ, ◌+◌, ◌-◌, ◌*◌, ◌^◌, bit_and, not, Option, none, some, ◌==◌, if◌then◌else◌, take, slice, add64,
  mul64, u64_modulus,
}
use uol_ms_project.Bytes.{Bytes, to_le, from_le, put_at}
use uol_ms_project.Format.{page_size, slot_size}

pub record Slot : Type 0 where
  pub offset : ℕ
  pub total_len : ℕ

abbrev pub tombstone_bit : ℕ
tombstone_bit = 2 ^ 63

pub data SlotState : Type 0 where
  empty : SlotState
  deleted : Slot → SlotState
  live : Slot → SlotState

unfoldable pub encode : Slot → Bytes → Bytes
encode slot out = put_at 8 (to_le 8 slot.total_len) (put_at 0 (to_le 8 slot.offset) out)

unfoldable pub state : Bytes → SlotState
state buf =
    let offset = from_le (take 8 buf) in
    let total_len = from_le (slice 8 16 buf) in
    if offset == 0
    then empty
    else if not (bit_and offset tombstone_bit == 0)
    then deleted (record {
      offset = bit_and offset (u64_modulus - 1 - tombstone_bit);
      total_len = total_len;
    })
    else live (record { offset = offset; total_len = total_len })

abbrev pub live_slot : SlotState → Option Slot
live_slot (live slot) = some slot
live_slot _ = none

unfoldable pub decode : Bytes → Option Slot
decode buf = live_slot (state buf)

unfoldable pub file_offset : ℕ → ℕ
file_offset id = add64 page_size (mul64 id slot_size)
