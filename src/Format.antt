-- ===== src/Format.antt =====
-- src/format.rs: the page size, the magic numbers and the alignment of offsets. The on-disk
-- structures are in the children, and so are the laws of the alignment.
pub mod Pages
pub mod FileHeader
pub mod RecordHeader
pub mod Slot
pub mod RegistryRow
use uol_ms_project.Prelude.{ℕ, ◌-◌, bit_and, add64, sub64, u64_modulus}

abbrev pub page_size : ℕ
page_size = 4096

abbrev pub record_magic : ℕ
record_magic = 0x44524352

abbrev pub registry_magic : ℕ
registry_magic = 0x58474552

abbrev pub layout_append : ℕ
layout_append = 0

abbrev pub layout_bucket : ℕ
layout_bucket = 1

abbrev pub slot_size : ℕ
slot_size = 16

abbrev pub registry_row_size : ℕ
registry_row_size = 64

-- `!(PAGE_SIZE_U64 - 1)`
abbrev pub page_mask : ℕ
page_mask = u64_modulus - 1 - (page_size - 1)

pub page_down : ℕ → ℕ
page_down off = bit_and off page_mask

pub page_up : ℕ → ℕ
page_up off = bit_and (sub64 (add64 off page_size) 1) page_mask
