-- ===== src/Index/Slots.antt =====
-- The index as an array of slots: an entry that is staged is read back, and the entries of other
-- numbers stay.
use uol_ms_project.Prelude.{
  zero, none, ltb→le, inr, ltb→lt, ltb, inl, Bool-cases, suc, some, ◌⊎◌, ℕ, ◌+◌, ◌*◌, ◌^◌, ◌<◌, ◌≤◌,
  ◌≡◌, ◌≢◌, refl, sym, ap, subst, ◌∙◌, Option, [], ◌∷◌, length, arith,
}
use mathlib.Core.List.{append-nil}
use uol_ms_project.Prelude.Exec.{Returns, returns, Returns-bind, Returns-weaken}
use uol_ms_project.Bytes.{Bytes}
use uol_ms_project.Format.{page_size, slot_size}
use uol_ms_project.Format.Slot
use uol_ms_project.Format.Slot.{Slot, SlotState, file_offset}
use uol_ms_project.Io.{BlockIo, IsReliable, read_cells, overlay}
use uol_ms_project.Data.{PagedFile}
use uol_ms_project.Data.View.{view, IsCoherent}
use uol_ms_project.Data.Stage.Fresh.{Kept, recycled-Kept}
use uol_ms_project.Data.Stage.Open.{IsStage}
use uol_ms_project.Data.Stage.Writes.{stage_lem}
use uol_ms_project.Index.{marked, stage_tombstone, stage_slot, read_slot, slot_bytes}
use uol_ms_project.Data.Stage.{stage, joined}
use uol_ms_project.Data.Files.{read_aligned}
use uol_ms_project.Data.Reads.{read_aligned_lem}
use uol_ms_project.Bytes.Slices.{length-put_at}
use uol_ms_project.Io.Overlay.{overlay_above, overlay_below}
use uol_ms_project.Io.Parts.{read_cells-overlay}

-- Record numbers whose slots lie far below the end of `u64`.
abbrev pub id_limit : ℕ
id_limit = 2 ^ 56

abbrev pub slot_at : ℕ → ℕ
slot_at id = page_size + id * slot_size

pub file_offset-eq : (id : ℕ) → id < id_limit → file_offset id ≡ slot_at id
unfolding file_offset
file_offset-eq id h = omega arith

-- The bytes of an entry.
abbrev pub entry : (ℕ → ℕ) → ℕ → Bytes
entry cells id = read_cells cells (slot_at id) slot_size

pub length-slot_bytes : (slot : Option Slot) → length (slot_bytes slot) ≡ slot_size
unfolding Slot.encode
length-slot_bytes none = refl
length-slot_bytes (some slot) = length-put_at _ _ _ ∙ length-put_at _ _ _

-- Over bytes laid elsewhere a read sees what was there.
pub read_cells-outside :
    (f g : ℕ → ℕ) (off : ℕ) (bytes : Bytes) (from n : ℕ)
    → ((i : ℕ) → f i ≡ overlay off bytes g i)
    → (from + n ≤ off) ⊎ (off + length bytes ≤ from)
    → read_cells f from n ≡ read_cells g from n
read_cells-outside f g off bytes from zero h apart = refl
read_cells-outside f g off bytes from (suc n) h apart =
    ap (λ c. c ∷ read_cells f (from + 1) n) here
    ∙ ap (λ t. g from ∷ t) (read_cells-outside f g off bytes (from + 1) n h (next apart))
  where
    here : f from ≡ g from
    here = h from ∙ elim apart [
      | inl below ↦ overlay_below off bytes g from (omega arith)
      | inr above ↦ overlay_above off bytes g from (omega arith)
    ]

    next :
        (from + suc n ≤ off) ⊎ (off + length bytes ≤ from)
        → (from + 1 + n ≤ off) ⊎ (off + length bytes ≤ from + 1)
    next (inl below) = inl (omega arith)
    next (inr above) = inr (omega arith)

-- The entries after one was staged.
pub record IsEntry (id : ℕ) (bytes : Bytes) (paged after : PagedFile) : Type 0 where
  pub coherent : IsCoherent after
  pub written : entry (view after) id ≡ bytes
  pub others : (k : ℕ) → k ≢ id → entry (view after) k ≡ entry (view paged) k

IsStage-IsEntry :
    (id : ℕ) (bytes : Bytes) (paged after : PagedFile)
    → length bytes ≡ slot_size
    → IsStage (slot_at id) bytes paged after
    → IsEntry id bytes paged after
IsStage-IsEntry id bytes paged after size st = record {
  coherent = st.coherent;
  written =
      ap (read_cells (view after) (slot_at id)) (sym size)
      ∙ read_cells-overlay (slot_at id) bytes (view after) (view paged) st.laid_over;
  others = λ k other.
      read_cells-outside (view after) (view paged) (slot_at id) bytes (slot_at k) slot_size
        st.laid_over (apart k other);
}
  where
    apart :
        (k : ℕ)
        → k ≢ id
        → (slot_at k + slot_size ≤ slot_at id) ⊎ (slot_at id + length bytes ≤ slot_at k)
    apart k other = elim (Bool-cases (ltb k id)) [
      | inl below ↦ inl (omega (arith, ltb→lt k id below))
      | inr above ↦ inr (omega (arith, ltb→le k id above, other, size))
    ]

module _ (io : BlockIo) (reliable : IsReliable io) where
  -- Staging the 16 bytes of an entry writes that entry alone.
  stage_entry_lem :
      (id : ℕ) (bytes : Bytes) (paged : PagedFile) (s : BlockIo.Io io)
      → length bytes ≡ slot_size
      → IsCoherent paged
      → id < id_limit
      → Returns
          (λ _ after. IsEntry id bytes paged after.0)
          (stage io (file_offset id) (bytes ∷ []) (paged, s))
  stage_entry_lem id bytes paged s size h small =
      let at = file_offset-eq id small in
      let whole : joined (bytes ∷ []) ≡ bytes = append-nil bytes in
      Returns-weaken _
        (stage_lem io reliable (file_offset id) (bytes ∷ []) paged s h
          (omega (arith, at, ap length whole, size)))
        (λ u after st. IsStage-IsEntry id bytes paged after.0 size (
          subst (λ o. IsStage o bytes paged after.0) at
            (subst (λ b. IsStage (file_offset id) b paged after.0) whole st)))

  pub stage_slot_lem :
      (id : ℕ) (slot : Option Slot) (paged : PagedFile) (s : BlockIo.Io io)
      → IsCoherent paged
      → id < id_limit
      → Returns
          (λ _ after. IsEntry id (slot_bytes slot) paged after.0)
          (stage_slot io id slot (paged, s))
  unfolding stage_slot
  stage_slot_lem id slot paged s h small =
      stage_entry_lem id (slot_bytes slot) paged s (length-slot_bytes slot) h small

  pub stage_tombstone_lem :
      (id : ℕ) (slot : Slot) (paged : PagedFile) (s : BlockIo.Io io)
      → IsCoherent paged
      → id < id_limit
      → Returns
          (λ _ after. IsEntry id (slot_bytes (some (marked slot))) paged after.0)
          (stage_tombstone io id slot (paged, s))
  unfolding stage_tombstone
  stage_tombstone_lem id slot paged s h small =
      stage_entry_lem id (slot_bytes (some (marked slot))) paged s
        (length-slot_bytes (some (marked slot))) h small

  -- Reading a slot decodes its entry.
  pub read_slot_lem :
      (id : ℕ) (paged : PagedFile) (s : BlockIo.Io io)
      → IsCoherent paged
      → id < id_limit
      → Returns
          (λ slot after. (slot ≡ Slot.decode (entry (view paged) id)) × Kept paged after.0)
          (read_slot io id (paged, s))
  unfolding read_slot
  read_slot_lem id paged s h small =
      let at = file_offset-eq id small in
      Returns-bind (read_aligned io (file_offset id) slot_size) _
        (read_aligned_lem io reliable (file_offset id) slot_size paged s h (omega (arith, at)))
        (λ found after (cells, flushed). returns _ _ (
          ap Slot.decode (cells ∙ ap (λ o. read_cells (view paged) o slot_size) at),
          recycled-Kept paged after.0 found.0 flushed,
        ))
