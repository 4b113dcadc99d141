-- ===== src/Records/Parse.antt =====
-- The bytes of a record: what `stage_record` stages, and `parse` of a buffer that holds them.
use uol_ms_project.Prelude.{
  ℕ, ◌+◌, ◌-◌, ◌^◌, ◌<◌, ◌≡◌, refl, sym, ap, ◌∙◌, Bool, true, false, ◌&&◌, not, some, [], ◌∷◌, ◌++◌,
  All, length, length-append, length-replicate, take, take_all, take-append-drop, take-append_left,
  drop, drop-append_left, slice, replicate, ◌==◌, ==_refl, ltb, le→ltb, if◌then◌else◌, add64, arith,
}
use mathlib.Core.List.{append-nil, append_assoc}
use uol_ms_project.Error.{ok}
use uol_ms_project.Bytes.{Bytes, IsByte, IsU16, IsU64}
use uol_ms_project.Crc32.{crc32c}
use uol_ms_project.Crc32.Slicing.{crc32c-IsU32}
use uol_ms_project.Format.RecordHeader
use uol_ms_project.Format.RecordHeader.{RecordHeader, header_len}
use uol_ms_project.Format.RecordHeader.RoundTrip.{
  IsHeader, image, decode-image, take-encode, length-encode, length-image,
}
use uol_ms_project.Data.Stage.{joined}
use uol_ms_project.Records.{check_record, parse, record_header_of, header_bytes}

-- The header that is read: a layout without buckets does not store the bucket number.
abbrev pub stored : Bool → RecordHeader → RecordHeader
stored with_bucket h = if with_bucket then h else record h { bucket = 0 }

pub record_header_of-IsHeader :
    (integrity : Bool) (bucket id version : ℕ) (payload : Bytes)
    → IsU64 bucket
    → IsU64 id
    → IsU16 version
    → IsU64 (length payload)
    → All IsByte payload
    → IsHeader (record_header_of integrity bucket id version payload)
record_header_of-IsHeader true bucket id version payload b i v l bytes = record {
  len = l;
  bucket = b;
  id = i;
  version = v;
  crc = crc32c-IsU32 payload bytes;
}
record_header_of-IsHeader false bucket id version payload b i v l bytes = record {
  len = l;
  bucket = b;
  id = i;
  version = v;
  crc = omega arith;
}

-- The bytes that are staged are the image of the header.
header_bytes-eq-image : (wb : Bool) (h : RecordHeader) → header_bytes wb h ≡ image h wb
unfolding header_bytes
header_bytes-eq-image wb h =
    sym (take_all (header_len wb) _ (omega (arith, length-encode h wb out, length-out)))
    ∙ take-encode h wb out (omega (arith, length-out))
  where
    out : Bytes
    out = replicate (header_len wb) 0

    length-out : length out ≡ header_len wb
    length-out = length-replicate (header_len wb) 0

-- The bytes of a record pass the tests of `parse`.
check_record_lem :
    (wb integrity : Bool) (h : RecordHeader) (xs payload rest : Bytes) (id offset : ℕ)
    → length xs ≡ header_len wb
    → h.id ≡ id
    → h.len ≡ length payload
    → header_len wb + length payload < 2 ^ 64
    → h.crc ≡ (if integrity then crc32c payload else 0)
    → check_record wb integrity
        (xs ++ (payload ++ rest))
        (header_len wb + length payload)
        id
        offset
        (some h)
      ≡ ok (h, payload)
unfolding check_record
check_record_lem wb integrity h xs payload rest id offset size same l small c =
    let n = header_len wb in
    let end : add64 n h.len ≡ n + length payload = omega arith in
    let total : add64 h.len n ≡ n + length payload = omega arith in
    let long : ltb (length (xs ++ (payload ++ rest))) (n + length payload) ≡ false =
      le→ltb _ _
        (omega (arith, length-append xs (payload ++ rest), length-append payload rest, size)) in
    let forward : ltb (n + length payload) n ≡ false = le→ltb _ _ (omega arith) in
    let cut : slice n (n + length payload) (xs ++ (payload ++ rest)) ≡ payload =
      ap (take (n + length payload - n)) (drop-append_left n xs (payload ++ rest) (sym size))
      ∙ take-append_left (n + length payload - n) payload rest (omega arith) in
    let sum : (integrity && not (crc32c payload == h.crc)) ≡ false = crc_holds integrity c in
    rw (end, total, same, ==_refl id, ==_refl (n + length payload), forward, long, cut, sum) refl
  where
    crc_holds :
        (integrity : Bool)
        → h.crc ≡ (if integrity then crc32c payload else 0)
        → (integrity && not (crc32c payload == h.crc)) ≡ false
    crc_holds true e = rw (e, ==_refl (crc32c payload)) refl
    crc_holds false e = refl

module _ (wb integrity : Bool) (bucket id version : ℕ) (payload : Bytes) where
  abbrev written : RecordHeader
  written = record_header_of integrity bucket id version payload

  -- `parse` accepts a buffer that holds the record at the offset.
  pub parse_lem :
      (buffer : Bytes) (at offset : ℕ)
      → IsHeader written
      → header_len wb + length payload < 2 ^ 64
      → take (header_len wb + length payload) (drop at buffer) ≡ image written wb ++ payload
      → parse wb integrity buffer at (header_len wb + length payload) id offset
        ≡ ok (stored wb written, payload)
  unfolding parse
  parse_lem buffer at offset v small held =
      let total = header_len wb + length payload in
      let whole : drop at buffer ≡ image written wb ++ (payload ++ drop total (drop at buffer)) =
        sym (take-append-drop total (drop at buffer))
        ∙ ap (λ t. t ++ drop total (drop at buffer)) held
        ∙ append_assoc (image written wb) payload (drop total (drop at buffer)) in
      ap (λ t. check_record wb integrity t total id offset (RecordHeader.decode t wb)) whole
      ∙ ap (check_record wb integrity _ total id offset)
          (decode-image written wb (payload ++ drop total (drop at buffer)) v)
      ∙ check_record_lem wb integrity (stored wb written) (image written wb) payload
          (drop total (drop at buffer)) id offset (length-image written wb) (kept wb).0 (kept wb).1
          small (kept wb).2
    where
      kept :
          (b : Bool)
          → ((stored b written).id ≡ id)
            × ((stored b written).len ≡ length payload)
            × ((stored b written).crc ≡ (if integrity then crc32c payload else 0))
      kept true = (refl, refl, refl)
      kept false = (refl, refl, refl)

-- The parts that `stage_record` stages.
pub joined_record :
    (wb : Bool) (h : RecordHeader) (payload : Bytes)
    → joined (header_bytes wb h ∷ payload ∷ []) ≡ image h wb ++ payload
joined_record wb h payload =
    ap (λ t. header_bytes wb h ++ t) (append-nil payload)
    ∙ ap (λ t. t ++ payload) (header_bytes-eq-image wb h)

pub length-record :
    (wb : Bool) (h : RecordHeader) (payload : Bytes)
    → length (image h wb ++ payload) ≡ header_len wb + length payload
length-record wb h payload = omega (arith, length-append (image h wb) payload, length-image h wb)
