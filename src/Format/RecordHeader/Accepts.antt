-- ===== src/Format/RecordHeader/Accepts.antt =====
-- What `decode` accepts: exactly the bytes that `encode` writes. So a changed byte is detected.
use uol_ms_project.Prelude.{
  ℕ, ◌+◌, ◌-◌, ◌≤◌, ◌≡◌, refl, sym, ap, ◌∙◌, Bool, true, false, some, ◌++◌, All, length,
  length-take, length-drop, take, drop, slice, if◌then◌else◌, arith,
}
use uol_ms_project.Bytes.{Bytes, IsByte, to_le, from_le}
use uol_ms_project.Bytes.Words.{to_le-from_le, All-take, All-drop}
use uol_ms_project.Bytes.Slices.{take-slice}
use uol_ms_project.Crc32.{crc32c}
use uol_ms_project.Format.{record_magic}
use uol_ms_project.Format.RecordHeader.{RecordHeader, header_len, encode, decode_fields, decode}
use uol_ms_project.Format.RecordHeader.RoundTrip.{body, image, take-encode}
use mathlib.Core.List.{append_assoc}

pub decode_inversion :
    (h : RecordHeader) (b : Bool) (buf : Bytes)
    → decode buf b ≡ some h
    → (header_len b ≤ length buf)
      × (from_le (take 4 buf) ≡ record_magic)
      × (from_le (slice (header_len b - 4) (header_len b) buf)
          ≡ crc32c (take (header_len b - 4) buf))
      × (h ≡ (
          if b then decode_fields buf (from_le (slice 12 20 buf)) 20 else decode_fields buf 0 12))
unfolding decode
decode_inversion h true buf e = ground arith
decode_inversion h false buf e = ground arith

-- A slice is the word that it is read as.
pub slice_word :
    (n from to : ℕ) (buf : Bytes)
    → All IsByte buf
    → from + n ≡ to
    → to ≤ length buf
    → to_le n (from_le (slice from to buf)) ≡ slice from to buf
slice_word n from to buf h e fits =
    let size : length (slice from to buf) ≡ n =
      omega (arith, length-take (to - from) (drop from buf), length-drop from buf) in
    ap (λ k. to_le k (from_le (slice from to buf))) (sym size)
    ∙ to_le-from_le (slice from to buf) (All-take IsByte (to - from) _ (All-drop IsByte from buf h))

join :
    (from to : ℕ) (buf rest : Bytes)
    → from ≤ to
    → take from buf ++ (slice from to buf ++ rest) ≡ take to buf ++ rest
join from to buf rest h =
    sym (append_assoc (take from buf) (slice from to buf) rest)
    ∙ ap (λ t. t ++ rest) (take-slice from to buf h)

abbrev read_body : Bytes → Bool → Bytes
read_body buf b =
    body (if b then decode_fields buf (from_le (slice 12 20 buf)) 20 else decode_fields buf 0 12) b

body-decode_fields :
    (b : Bool) (buf : Bytes)
    → All IsByte buf
    → header_len b ≤ length buf
    → from_le (take 4 buf) ≡ record_magic
    → read_body buf b ≡ take (header_len b - 4) buf
unfolding decode_fields
body-decode_fields true buf h fits m =
    rw
      (
        ← m,
        slice_word 8 4 12 buf h refl (omega arith),
        slice_word 8 12 20 buf h refl (omega arith),
        slice_word 8 20 28 buf h refl (omega arith),
        slice_word 2 28 30 buf h refl (omega arith),
        slice_word 4 30 34 buf h refl (omega arith),
      )
      (rw (slice_word 4 0 4 buf h refl (omega arith)) (
        join 4 12 buf _ (omega arith)
        ∙ join 12 20 buf _ (omega arith)
        ∙ join 20 28 buf _ (omega arith)
        ∙ join 28 30 buf _ (omega arith)
        ∙ take-slice 30 34 buf (omega arith)))
body-decode_fields false buf h fits m =
    rw
      (
        ← m,
        slice_word 8 4 12 buf h refl (omega arith),
        slice_word 8 12 20 buf h refl (omega arith),
        slice_word 2 20 22 buf h refl (omega arith),
        slice_word 4 22 26 buf h refl (omega arith),
      )
      (rw (slice_word 4 0 4 buf h refl (omega arith)) (
        join 4 12 buf _ (omega arith)
        ∙ join 12 20 buf _ (omega arith)
        ∙ join 20 22 buf _ (omega arith)
        ∙ take-slice 22 26 buf (omega arith)))

-- The bytes of an accepted header are the image of the header.
pub decode-image_only :
    (h : RecordHeader) (b : Bool) (buf : Bytes)
    → All IsByte buf
    → decode buf b ≡ some h
    → take (header_len b) buf ≡ image h b
decode-image_only h b buf bytes e =
    let (fits, m, sum, fields) = decode_inversion h b buf e in
    let whole : body h b ≡ take (header_len b - 4) buf =
      ap (λ t. body t b) fields ∙ body-decode_fields b buf bytes fits m in
    sym (
      ap (λ t. t ++ to_le 4 (crc32c t)) whole
      ∙ ap (λ n. take (header_len b - 4) buf ++ to_le 4 n) (sym sum)
      ∙ ap (λ t. take (header_len b - 4) buf ++ t) (slice_word 4 _ _ buf bytes (four b) fits)
      ∙ take-slice (header_len b - 4) (header_len b) buf (omega (arith, four b)))
  where
    four : (b : Bool) → header_len b - 4 + 4 ≡ header_len b
    four true = refl
    four false = refl

-- `decode` accepts exactly what `encode` writes: the header bytes of an accepted buffer are those
-- that encoding the header puts into any buffer with room for it.
pub decode-Accepts :
    (h : RecordHeader) (with_bucket : Bool) (buf out : Bytes)
    → All IsByte buf
    → decode buf with_bucket ≡ some h
    → header_len with_bucket ≤ length out
    → take (header_len with_bucket) buf ≡ take (header_len with_bucket) (encode h with_bucket out)
decode-Accepts h b buf out bytes e fits =
    decode-image_only h b buf bytes e ∙ sym (take-encode h b out fits)
