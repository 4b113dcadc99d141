-- ===== src/Format/Slot/RoundTrip.antt =====
-- What an index entry is read as: empty, live or deleted, and what a tombstone keeps.
use uol_ms_project.Prelude.{
  ℕ, ◌+◌, ◌-◌, ◌*◌, ◌/◌, ◌%◌, ◌^◌, ◌<◌, ◌≤◌, ◌≡◌, ◌≢◌, refl, sym, ap, ◌∙◌, bit_and, bit_or, [],
  ◌++◌, length, take, drop, take-append-drop, false, ◌==◌, ne→==, u64_modulus, arith,
}
use uol_ms_project.Prelude.Bits.Masks.{bit_and_low, bit_and_high, bit_or_above}
use uol_ms_project.Bytes.{Bytes, IsU64, to_le, put_at}
use uol_ms_project.Bytes.Words.{length-to_le, from_le-to_le}
use uol_ms_project.Bytes.Slices.{length-put_at, put_at-prefix}
use uol_ms_project.Format.Slot.{Slot, deleted, live, tombstone_bit, encode, state}

abbrev pub image : Slot → Bytes
image slot = to_le 8 slot.offset ++ to_le 8 slot.total_len

-- An offset that an index entry can hold: not 0, and below the tombstone bit.
pub record IsSlot (slot : Slot) : Type 0 where
  pub some_offset : slot.offset ≢ 0
  pub no_bit : slot.offset < tombstone_bit
  pub total_len : IsU64 slot.total_len

pub take-encode :
    (slot : Slot) (out : Bytes) → 16 ≤ length out → take 16 (encode slot out) ≡ image slot
unfolding encode
take-encode slot out fits =
    put_at-prefix 8 16 (to_le 8 slot.total_len) (put_at 0 (to_le 8 slot.offset) out) _
      (put_at-prefix 0 8 (to_le 8 slot.offset) out [] refl
        (omega (arith, length-to_le 8 slot.offset)) (omega arith))
      (omega (arith, length-to_le 8 slot.total_len))
      (omega (arith, length-put_at 0 (to_le 8 slot.offset) out))

top_bit : (a : ℕ) → bit_and a tombstone_bit ≡ a / 2 ^ 63 % 2 * 2 ^ 63
top_bit a = omega (arith, bit_and_high 63 a 1, bit_and_low 1 (a / 2 ^ 63))

clear_top_bit : (a : ℕ) → a < 2 ^ 63 → bit_and (a + 2 ^ 63) (u64_modulus - 1 - tombstone_bit) ≡ a
clear_top_bit a h = bit_and_low 63 (a + 2 ^ 63) ∙ omega arith

-- The mark of `stage_tombstone`.
pub tombstone-add : (a : ℕ) → a < 2 ^ 63 → bit_or a tombstone_bit ≡ a + 2 ^ 63
tombstone-add a h = bit_or_above 63 a 1 h

pub state-live : (slot : Slot) (rest : Bytes) → IsSlot slot → state (image slot ++ rest) ≡ live slot
unfolding state to_le
state-live slot rest v =
    let low : bit_and slot.offset tombstone_bit ≡ 0 = top_bit slot.offset ∙ omega arith in
    rw
      (
        from_le-to_le 8 slot.offset (omega arith),
        from_le-to_le 8 slot.total_len v.total_len,
        low,
        ne→== slot.offset 0 v.some_offset,
      )
      refl

pub state-deleted :
    (slot : Slot) (rest : Bytes)
    → IsSlot slot
    → state (image (record slot { offset = bit_or slot.offset tombstone_bit }) ++ rest)
      ≡ deleted slot
unfolding state to_le
state-deleted slot rest v =
    let marked : bit_and (slot.offset + 2 ^ 63) tombstone_bit ≡ 2 ^ 63 =
      top_bit (slot.offset + 2 ^ 63) ∙ omega arith in
    let some_offset : (slot.offset + 2 ^ 63 == 0) ≡ false = ne→== _ 0 (omega arith) in
    rw
      (
        tombstone-add slot.offset v.no_bit,
        from_le-to_le 8 (slot.offset + 2 ^ 63) (omega arith),
        from_le-to_le 8 slot.total_len v.total_len,
        marked,
        some_offset,
        clear_top_bit slot.offset v.no_bit,
      )
      refl

-- An entry that is written for a record reads as live, and with the tombstone bit set as deleted;
-- both give back the slot.
pub state-encode :
    (slot : Slot) (out : Bytes)
    → IsSlot slot
    → 16 ≤ length out
    → (state (encode slot out) ≡ live slot)
      × (state (encode (record slot { offset = bit_or slot.offset tombstone_bit }) out)
          ≡ deleted slot)
state-encode slot out v fits =
    (split slot ∙ state-live slot _ v, split marked ∙ state-deleted slot _ v)
  where
    marked : Slot
    marked = record slot { offset = bit_or slot.offset tombstone_bit }

    split : (s : Slot) → state (encode s out) ≡ state (image s ++ drop 16 (encode s out))
    split s = ap state (
        sym (take-append-drop 16 (encode s out))
        ∙ ap (λ t. t ++ drop 16 (encode s out)) (take-encode s out fits))
