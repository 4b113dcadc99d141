-- ===== src/Format/Pages.antt =====
-- Alignment: `page_down` and `page_up` are the multiples of the page size on either side.
use uol_ms_project.Prelude.{
  ℕ, ◌+◌, ◌-◌, ◌*◌, ◌/◌, ◌%◌, ◌^◌, ◌≤◌, ◌≡◌, ap, ◌∙◌, bit_and, add64, sub64, arith,
}
use uol_ms_project.Prelude.Bits.Masks.{bit_and_high, bit_and_low}
use uol_ms_project.Bytes.{IsU64}
use uol_ms_project.Format.{page_size, page_mask, page_down, page_up}

mask-div : (a : ℕ) → IsU64 a → bit_and a page_mask ≡ a / page_size * page_size
mask-div a h =
    bit_and_high 12 a (2 ^ 52 - 1)
    ∙ ap (λ t. t * page_size) (bit_and_low 52 (a / page_size))
    ∙ omega arith

pub page_down_lem : (off : ℕ) → IsU64 off → page_down off ≡ off / page_size * page_size
unfolding page_down
page_down_lem off h = mask-div off h

pub page_up_lem :
    (off : ℕ) → off + page_size ≤ 2 ^ 64 → page_up off ≡ (off + 4095) / page_size * page_size
unfolding page_up
page_up_lem off h =
    let same : sub64 (add64 off page_size) 1 ≡ off + 4095 = omega arith in
    ap (λ t. bit_and t page_mask) same ∙ mask-div (off + 4095) (omega arith)

-- `page_down` is the greatest multiple of the page size up to `off`, and `page_up` the least one
-- from `off` on, as long as the next page does not pass the end of `u64`.
pub pages_enclose :
    (off m : ℕ)
    → off + page_size ≤ 2 ^ 64
    → (page_down off % page_size ≡ 0)
      × (page_up off % page_size ≡ 0)
      × (page_down off ≤ off)
      × (off ≤ page_up off)
      × (m * page_size ≤ off → m * page_size ≤ page_down off)
      × (off ≤ m * page_size → page_up off ≤ m * page_size)
pages_enclose off m h =
    rw (page_down_lem off (omega arith), page_up_lem off h)
      (omega arith, omega arith, omega arith, omega arith, λ k. omega arith, λ k. omega arith)
