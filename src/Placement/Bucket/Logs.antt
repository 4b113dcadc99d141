-- ===== src/Placement/Bucket/Logs.antt =====
-- The sections of the grant numbers begin at the powers of two.
use uol_ms_project.Prelude.{
  ==→eq, ℕ, zero, suc, ◌+◌, ◌-◌, ◌*◌, ◌/◌, ◌^◌, ◌≤◌, ◌<◌, ◌≡◌, inl, inr, refl, ap, ◌∙◌, Bool-cases,
  ◌==◌, ltb, ltb→lt, ltb→le, arith,
}
use native.Mathlib.Nat.{pow-le-pow_right}
use uol_ms_project.Placement.Bucket.Grant.{bit_length, section_base}

-- The number has `k + 1` binary digits.
abbrev HasLog : ℕ → ℕ → Type 0
HasLog n k = (2 ^ k ≤ n) × (n < 2 ^ suc k)

bit_length-zero : (fuel : ℕ) → bit_length fuel 0 ≡ 0
unfolding bit_length
bit_length-zero zero = refl
bit_length-zero (suc fuel) = refl

back : (k : ℕ) → 2 ^ (k + 1 - 1) ≡ 2 ^ k
back k = ap (λ (j : ℕ). 2 ^ j) same
  where
    same : k + 1 - 1 ≡ k
    same = omega arith

two_step : (k : ℕ) → 1 ≤ k → 2 ^ k ≡ 2 * 2 ^ (k - 1)
two_step zero h = absurd (omega arith)
two_step (suc k) h = ap (λ (j : ℕ). 2 ^ j) same ∙ pow_suc
  where
    same : suc k ≡ suc (suc k - 1)
    same = omega arith

    pow_suc : 2 ^ suc (suc k - 1) ≡ 2 * 2 ^ (suc k - 1)
    pow_suc = omega arith

bit_length_lem :
    (fuel n : ℕ)
    → 1 ≤ n
    → n < 2 ^ fuel
    → (1 ≤ bit_length fuel n) × (2 ^ (bit_length fuel n - 1) ≤ n) × (n < 2 ^ bit_length fuel n)
unfolding bit_length
bit_length_lem zero n some small = absurd (omega arith)
bit_length_lem (suc fuel) n some small = elim (Bool-cases (n == 0)) [
  | inl nothing ↦ absurd (omega (arith, ==→eq n 0 nothing))
  | inr positive ↦ rw positive (elim (Bool-cases (ltb 0 (n / 2))) [
    | inl more ↦
        let (one, low, high) = bit_length_lem fuel (n / 2) (ltb→lt 0 (n / 2) more) (omega arith) in
        let step = two_step (bit_length fuel (n / 2)) one in
        (
          omega arith,
          omega (arith, low, step, back (bit_length fuel (n / 2))),
          omega (
            arith,
            high,
            two_step (bit_length fuel (n / 2) + 1) (omega arith),
            back (bit_length fuel (n / 2)),
          ),
        )
    | inr last ↦
        let none_left : n / 2 ≡ 0 = omega (arith, ltb→le 0 (n / 2) last) in
        let digits : bit_length fuel (n / 2) ≡ 0 =
          ap (bit_length fuel) none_left ∙ bit_length-zero fuel in
        rw digits (omega arith, omega arith, omega (arith, none_left))
  ])
]

log_eq : (n j k : ℕ) → HasLog n j → HasLog n k → j ≡ k
log_eq n j k p q = elim (Bool-cases (ltb j k)) [
  | inl less ↦ absurd (
      omega (
        arith,
        p.1,
        q.0,
        pow-le-pow_right {n = 2} (omega arith) {i = suc j} {j = k} (ltb→lt j k less),
      ))
  | inr no_less ↦ elim (Bool-cases (ltb k j)) [
    | inl less ↦ absurd (
        omega (
          arith,
          q.1,
          p.0,
          pow-le-pow_right {n = 2} (omega arith) {i = suc k} {j = j} (ltb→lt k j less),
        ))
    | inr equal ↦ omega (arith, ltb→le j k no_less, ltb→le k j equal)
  ]
]

-- The section of a grant number begins at a power of two, and ends before the next one.
pub record IsSection (n base : ℕ) : Type 0 where
  pub log : ℕ
  pub base_eq : base ≡ 2 ^ log
  pub from : base ≤ n
  pub below : n < 2 * base

pub section_base_lem : (n : ℕ) → 1 ≤ n → n < 2 ^ 64 → IsSection n (section_base n)
unfolding section_base
section_base_lem n some small =
    let (one, low, high) = bit_length_lem 64 n some small in
    let step = two_step (bit_length 64 n) one in
    record {
      log = bit_length 64 n - 1;
      base_eq = refl;
      from = low;
      below = omega (arith, high, step);
    }

-- A number between a power of two and the next one is in that section.
pub section_base-eq : (n k : ℕ) → 2 ^ k ≤ n → n < 2 * 2 ^ k → n < 2 ^ 64 → section_base n ≡ 2 ^ k
section_base-eq n k from below small =
    let some : 1 ≤ n =
      omega (arith, from, pow-le-pow_right {n = 2} (omega arith) {i = 0} {j = k} (omega arith)) in
    let s = section_base_lem n some small in
    s.base_eq
    ∙ ap (λ j. 2 ^ j)
        (log_eq n s.log k (omega (arith, s.base_eq, s.from), omega (arith, s.base_eq, s.below))
          (from, omega arith))

-- Two sections whose first numbers are less than a factor of two apart are the same.
pub section-le : (n m : ℕ) (s t : ℕ) → IsSection n s → IsSection m t → s < t → 2 * s ≤ t
section-le n m s t p q less = elim (Bool-cases (ltb p.log q.log)) [
  | inl below ↦ omega (
    arith,
    p.base_eq,
    q.base_eq,
    pow-le-pow_right {n = 2} (omega arith) {i = suc p.log} {j = q.log} (ltb→lt p.log q.log below),
  )
  | inr above ↦ absurd (
      omega (
        arith,
        p.base_eq,
        q.base_eq,
        pow-le-pow_right {n = 2} (omega arith) {i = q.log} {j = p.log} (ltb→le p.log q.log above),
      ))
]
