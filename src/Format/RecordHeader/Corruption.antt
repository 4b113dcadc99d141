-- ===== src/Format/RecordHeader/Corruption.antt =====
-- A record header with one byte changed: whether the byte is of the fields or of the checksum,
-- `decode` refuses the header.
use uol_ms_project.Prelude.{
  ℕ, zero, suc, ◌+◌, ◌-◌, ◌≤◌, ◌<◌, ◌≡◌, ◌≢◌, inl, inr, refl, sym, ap, subst, ◌∙◌, Bool, true,
  false, Bool-cases, Option-cases, none, some, [], ◌∷◌, ◌++◌, All, length, length-append, take,
  drop, slice, get_or, get_or-take, get_or-drop, ltb, ltb→lt, ltb→le, arith,
}
use uol_ms_project.Bytes.{Bytes, IsByte, to_le, from_le}
use uol_ms_project.Bytes.Words.{All-take}
use uol_ms_project.Crc32.{crc32c}
use uol_ms_project.Crc32.Detect.{crc32c-detects_byte}
use uol_ms_project.Format.RecordHeader.{RecordHeader, header_len, decode}
use uol_ms_project.Format.RecordHeader.Accepts.{decode_inversion, slice_word}

-- Cutting a list behind, before and at an element of its inside.
take-past :
    (n : ℕ) (xs ys : Bytes) (x : ℕ)
    → length xs < n
    → take n (xs ++ x ∷ ys) ≡ xs ++ x ∷ take (n - 1 - length xs) ys
take-past zero xs ys x h = absurd (omega arith)
take-past (suc n) [] ys x h =
    let rest : n ≡ suc n - 1 - 0 = omega arith in ap (λ k. x ∷ take k ys) rest
take-past (suc n) (y ∷ xs) ys x h =
    let rest : n - 1 - length xs ≡ suc n - 1 - suc (length xs) = omega arith in
    ap (λ t. y ∷ t) (take-past n xs ys x (omega arith) ∙ ap (λ k. xs ++ x ∷ take k ys) rest)

drop-past :
    (n : ℕ) (xs ys : Bytes) (x : ℕ)
    → length xs < n
    → drop n (xs ++ x ∷ ys) ≡ drop (n - 1 - length xs) ys
drop-past zero xs ys x h = absurd (omega arith)
drop-past (suc n) [] ys x h = ap (λ k. drop k ys) (omega arith)
drop-past (suc n) (y ∷ xs) ys x h =
    let rest : n - 1 - length xs ≡ suc n - 1 - suc (length xs) = omega arith in
    drop-past n xs ys x (omega arith) ∙ ap (λ k. drop k ys) rest

take-before : (n : ℕ) (xs ys : Bytes) → n ≤ length xs → take n (xs ++ ys) ≡ take n xs
take-before zero xs ys h = refl
take-before (suc n) [] ys h = absurd (omega arith)
take-before (suc n) (x ∷ xs) ys h = ap (λ t. x ∷ t) (take-before n xs ys (omega arith))

get_or_at : (xs ys : Bytes) (x : ℕ) → get_or (xs ++ x ∷ ys) (length xs) 0 ≡ x
get_or_at [] ys x = refl
get_or_at (y ∷ xs) ys x = get_or_at xs ys x

length_same : (xs ys : Bytes) (b c : ℕ) → length (xs ++ b ∷ ys) ≡ length (xs ++ c ∷ ys)
length_same xs ys b c = length-append xs (b ∷ ys) ∙ sym (length-append xs (c ∷ ys))

module _ (before after : Bytes) (b c n : ℕ) (hb : All IsByte (before ++ b ∷ after))
    (hc : All IsByte (before ++ c ∷ after))
    (sum_b : from_le (slice n (n + 4) (before ++ b ∷ after))
      ≡ crc32c (take n (before ++ b ∷ after)))
    (sum_c : from_le (slice n (n + 4) (before ++ c ∷ after))
      ≡ crc32c (take n (before ++ c ∷ after))) where
  -- The checksums stored behind the byte are the same, so the computed ones are.
  field_same :
      length before < n
      → crc32c (before ++ b ∷ take (n - 1 - length before) after)
        ≡ crc32c (before ++ c ∷ take (n - 1 - length before) after)
  field_same h =
      sym (ap crc32c (take-past n before after b h))
      ∙ sym sum_b
      ∙ ap (λ t. from_le (take (n + 4 - n) t))
          (drop-past n before after b h ∙ sym (drop-past n before after c h))
      ∙ sum_c
      ∙ ap crc32c (take-past n before after c h)

  field_changed : length before < n → b ≢ c → ⊥
  field_changed h other =
      crc32c-detects_byte before (take (n - 1 - length before) after) b c
        (subst (All IsByte) (take-past n before after b h) (All-take IsByte n _ hb))
        (subst (All IsByte) (take-past n before after c h) (All-take IsByte n _ hc)) other
        (field_same h)

  at_byte :
      (x : ℕ)
      → n ≤ length before
      → length before < n + 4
      → get_or (slice n (n + 4) (before ++ x ∷ after)) (length before - n) 0 ≡ x
  at_byte x h k =
      let place : n + (length before - n) ≡ length before = omega arith in
      get_or-take (n + 4 - n) (drop n (before ++ x ∷ after)) (length before - n) 0 (omega arith)
      ∙ get_or-drop n (before ++ x ∷ after) (length before - n) 0
      ∙ ap (λ i. get_or (before ++ x ∷ after) i 0) place
      ∙ get_or_at before after x

  -- The bytes under the checksum are the same, so the stored checksums are.
  sum_same :
      n ≤ length before
      → n + 4 ≤ length (before ++ b ∷ after)
      → slice n (n + 4) (before ++ b ∷ after) ≡ slice n (n + 4) (before ++ c ∷ after)
  sum_same h fits =
      sym (slice_word 4 n (n + 4) (before ++ b ∷ after) hb refl fits)
      ∙ ap (to_le 4) (
          sum_b
          ∙ ap crc32c
              (take-before n before (b ∷ after) h ∙ sym (take-before n before (c ∷ after) h))
          ∙ sym sum_c)
      ∙ slice_word 4 n (n + 4) (before ++ c ∷ after) hc refl
          (subst (λ k. n + 4 ≤ k) (length_same before after b c) fits)

  changed : length before < n + 4 → n + 4 ≤ length (before ++ b ∷ after) → b ≢ c → ⊥
  changed short fits other = elim (Bool-cases (ltb (length before) n)) [
    | inl field ↦ field_changed (ltb→lt (length before) n field) other
    | inr sum ↦
        let past : n ≤ length before = ltb→le (length before) n sum in
        other (
          sym (at_byte b past short)
          ∙ ap (λ t. get_or t (length before - n) 0) (sum_same past fits)
          ∙ at_byte c past short)
  ]

-- No single changed byte of a record header goes unnoticed: if `decode` accepts a buffer, it
-- refuses the buffer with another value in any one byte of the header, be it of a field or of the
-- checksum.
pub decode-detects_byte :
    (before after : Bytes) (b c : ℕ) (with_bucket : Bool) (h : RecordHeader)
    → All IsByte (before ++ b ∷ after)
    → All IsByte (before ++ c ∷ after)
    → b ≢ c
    → length before < header_len with_bucket
    → decode (before ++ b ∷ after) with_bucket ≡ some h
    → decode (before ++ c ∷ after) with_bucket ≡ none
decode-detects_byte before after b c true h hb hc other short e =
    elim (Option-cases (decode (before ++ c ∷ after) true)) [
      | inl refused ↦ refused
      | inr (h', e') ↦
          let (fits, _, sum, _) = decode_inversion h true (before ++ b ∷ after) e in
          let (_, _, sum', _) = decode_inversion h' true (before ++ c ∷ after) e' in
          absurd (changed before after b c 34 hb hc sum sum' short fits other)
    ]
decode-detects_byte before after b c false h hb hc other short e =
    elim (Option-cases (decode (before ++ c ∷ after) false)) [
      | inl refused ↦ refused
      | inr (h', e') ↦
          let (fits, _, sum, _) = decode_inversion h false (before ++ b ∷ after) e in
          let (_, _, sum', _) = decode_inversion h' false (before ++ c ∷ after) e' in
          absurd (changed before after b c 26 hb hc sum sum' short fits other)
    ]
