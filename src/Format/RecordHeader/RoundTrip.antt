-- ===== src/Format/RecordHeader/RoundTrip.antt =====
-- A record header is read back as it was written.
use uol_ms_project.Prelude.{
  ℕ, ◌+◌, ◌≤◌, ◌≡◌, refl, sym, ap, ◌∙◌, Bool, true, false, some, [], ◌++◌, All, ltb, le→ltb,
  ==_refl, length, take, drop, take-append-drop, if◌then◌else◌, arith,
}
use uol_ms_project.Bytes.{Bytes, IsByte, IsU16, IsU32, IsU64, to_le, from_le, put_at}
use uol_ms_project.Bytes.Words.{length-to_le, from_le-to_le}
use uol_ms_project.Bytes.Slices.{length-put_at, put_at-prefix}
use mathlib.Core.List.{append_assoc}
use uol_ms_project.Crc32.{crc32c}
use uol_ms_project.Crc32.Slicing.{crc32c-IsU32}
use uol_ms_project.Format.{record_magic}
use uol_ms_project.Format.RecordHeader.{
  RecordHeader, header_len, encode_fields, encode, decode_fields, decode,
}

-- The fields are words of their sizes.
pub record IsHeader (h : RecordHeader) : Type 0 where
  pub len : IsU64 h.len
  pub bucket : IsU64 h.bucket
  pub id : IsU64 h.id
  pub version : IsU16 h.version
  pub crc : IsU32 h.crc

-- The bytes of a header before its checksum.
abbrev pub body : RecordHeader → Bool → Bytes
body h with_bucket =
    to_le 4 record_magic
    ++ (to_le 8 h.len
        ++ ((if with_bucket then to_le 8 h.bucket else [])
            ++ (to_le 8 h.id ++ (to_le 2 h.version ++ to_le 4 h.crc))))

abbrev pub image : RecordHeader → Bool → Bytes
image h with_bucket = body h with_bucket ++ to_le 4 (crc32c (body h with_bucket))

abbrev tail_fields : RecordHeader → Bytes
tail_fields h = to_le 8 h.id ++ (to_le 2 h.version ++ to_le 4 h.crc)

-- What the four writes leave before the end of the header: the prefix, the fields and their sum.
take-encode_fields :
    (h : RecordHeader) (f : ℕ) (out pre : Bytes)
    → f + 18 ≤ length out
    → take f out ≡ pre
    → take (f + 18) (encode_fields h f out)
      ≡ (pre ++ tail_fields h) ++ to_le 4 (crc32c (pre ++ tail_fields h))
unfolding encode_fields
take-encode_fields h f out pre fits p =
    put_at-prefix (f + 14) (f + 18) (to_le 4 (crc32c (take (f + 14) o3))) o3 (take (f + 14) o3) refl
      (omega (arith, length-to_le 4 (crc32c (take (f + 14) o3)))) (omega (arith, s1, s2, s3))
    ∙ ap (λ t. t ++ to_le 4 (crc32c t))
        (t3
          ∙ append_assoc (pre ++ to_le 8 h.id) (to_le 2 h.version) (to_le 4 h.crc)
          ∙ append_assoc pre (to_le 8 h.id) (to_le 2 h.version ++ to_le 4 h.crc))
  where
    o1 : Bytes
    o1 = put_at f (to_le 8 h.id) out

    o2 : Bytes
    o2 = put_at (f + 8) (to_le 2 h.version) o1

    o3 : Bytes
    o3 = put_at (f + 10) (to_le 4 h.crc) o2

    s1 : length o1 ≡ length out
    s1 = length-put_at f (to_le 8 h.id) out

    s2 : length o2 ≡ length o1
    s2 = length-put_at (f + 8) (to_le 2 h.version) o1

    s3 : length o3 ≡ length o2
    s3 = length-put_at (f + 10) (to_le 4 h.crc) o2

    t1 : take (f + 8) o1 ≡ pre ++ to_le 8 h.id
    t1 = put_at-prefix f (f + 8) _ out pre p (omega (arith, length-to_le 8 h.id)) (omega arith)

    t2 : take (f + 10) o2 ≡ (pre ++ to_le 8 h.id) ++ to_le 2 h.version
    t2 =
        put_at-prefix (f + 8) (f + 10) _ o1 _ t1 (omega (arith, length-to_le 2 h.version))
          (omega (arith, s1))

    t3 : take (f + 14) o3 ≡ ((pre ++ to_le 8 h.id) ++ to_le 2 h.version) ++ to_le 4 h.crc
    t3 =
        put_at-prefix (f + 10) (f + 14) _ o2 _ t2 (omega (arith, length-to_le 4 h.crc))
          (omega (arith, s1, s2))

pub take-encode :
    (h : RecordHeader) (b : Bool) (out : Bytes)
    → header_len b ≤ length out
    → take (header_len b) (encode h b out) ≡ image h b
unfolding encode
take-encode h true out fits =
    take-encode_fields h 20 o3 ((to_le 4 record_magic ++ to_le 8 h.len) ++ to_le 8 h.bucket)
      (omega (arith, s1, s2, s3))
      (put_at-prefix 12 20 _ o2 _ t2 (omega (arith, length-to_le 8 h.bucket))
        (omega (arith, s1, s2)))
    ∙ unfold to_le in refl
  where
    o1 : Bytes
    o1 = put_at 0 (to_le 4 record_magic) out

    o2 : Bytes
    o2 = put_at 4 (to_le 8 h.len) o1

    o3 : Bytes
    o3 = put_at 12 (to_le 8 h.bucket) o2

    s1 : length o1 ≡ length out
    s1 = length-put_at 0 (to_le 4 record_magic) out

    s2 : length o2 ≡ length o1
    s2 = length-put_at 4 (to_le 8 h.len) o1

    s3 : length o3 ≡ length o2
    s3 = length-put_at 12 (to_le 8 h.bucket) o2

    t1 : take 4 o1 ≡ to_le 4 record_magic
    t1 = put_at-prefix 0 4 _ out [] refl (omega (arith, length-to_le 4 record_magic)) (omega arith)

    t2 : take 12 o2 ≡ to_le 4 record_magic ++ to_le 8 h.len
    t2 = put_at-prefix 4 12 _ o1 _ t1 (omega (arith, length-to_le 8 h.len)) (omega (arith, s1))
take-encode h false out fits =
    take-encode_fields h 12 o2 (to_le 4 record_magic ++ to_le 8 h.len) (omega (arith, s1, s2))
      (put_at-prefix 4 12 _ o1 _ t1 (omega (arith, length-to_le 8 h.len)) (omega (arith, s1)))
    ∙ unfold to_le in refl
  where
    o1 : Bytes
    o1 = put_at 0 (to_le 4 record_magic) out

    o2 : Bytes
    o2 = put_at 4 (to_le 8 h.len) o1

    s1 : length o1 ≡ length out
    s1 = length-put_at 0 (to_le 4 record_magic) out

    s2 : length o2 ≡ length o1
    s2 = length-put_at 4 (to_le 8 h.len) o1

    t1 : take 4 o1 ≡ to_le 4 record_magic
    t1 = put_at-prefix 0 4 _ out [] refl (omega (arith, length-to_le 4 record_magic)) (omega arith)

pub body-IsByte : (h : RecordHeader) (b : Bool) → All IsByte (body h b)
unfolding to_le
body-IsByte h true = omega arith
body-IsByte h false = omega arith

-- The words of the image, as `decode` reads them.
sum-image :
    (h : RecordHeader) (b : Bool) → from_le (to_le 4 (crc32c (body h b))) ≡ crc32c (body h b)
sum-image h b = from_le-to_le 4 (crc32c (body h b)) (crc32c-IsU32 (body h b) (body-IsByte h b))

magic-image : from_le (to_le 4 record_magic) ≡ record_magic
magic-image = from_le-to_le 4 record_magic (omega arith)

pub decode-image :
    (h : RecordHeader) (b : Bool) (rest : Bytes)
    → IsHeader h
    → decode (image h b ++ rest) b ≡ some (if b then h else record h { bucket = 0 })
unfolding decode decode_fields to_le
decode-image h true rest v =
    let long : ltb (length (image h true ++ rest)) 38 ≡ false = le→ltb _ _ (omega arith) in
    rw
      (
        long,
        sum-image h true,
        ==_refl (crc32c (body h true)),
        magic-image,
        from_le-to_le 8 h.len v.len,
        from_le-to_le 8 h.bucket v.bucket,
        from_le-to_le 8 h.id v.id,
        from_le-to_le 2 h.version v.version,
        from_le-to_le 4 h.crc v.crc,
      )
      refl
decode-image h false rest v =
    let long : ltb (length (image h false ++ rest)) 30 ≡ false = le→ltb _ _ (omega arith) in
    rw
      (
        long,
        sum-image h false,
        ==_refl (crc32c (body h false)),
        magic-image,
        from_le-to_le 8 h.len v.len,
        from_le-to_le 8 h.id v.id,
        from_le-to_le 2 h.version v.version,
        from_le-to_le 4 h.crc v.crc,
      )
      refl

-- A header that is written into a buffer with room for it is read back; without buckets the bucket
-- number is not stored, and reads as 0.
pub decode-encode_header :
    (h : RecordHeader) (with_bucket : Bool) (out : Bytes)
    → IsHeader h
    → header_len with_bucket ≤ length out
    → decode (encode h with_bucket out) with_bucket
      ≡ some (if with_bucket then h else record h { bucket = 0 })
decode-encode_header h b out v fits =
    ap (λ t. decode t b)
      (sym (take-append-drop (header_len b) (encode h b out))
        ∙ ap (λ t. t ++ drop (header_len b) (encode h b out)) (take-encode h b out fits))
    ∙ decode-image h b (drop (header_len b) (encode h b out)) v

-- Encoding keeps the length of the buffer.
length-encode_fields :
    (h : RecordHeader) (f : ℕ) (out : Bytes) → length (encode_fields h f out) ≡ length out
unfolding encode_fields
length-encode_fields h f out =
    length-put_at _ _ _
    ∙ length-put_at _ _ _
    ∙ length-put_at _ _ _
    ∙ length-put_at f (to_le 8 h.id) out

pub length-encode :
    (h : RecordHeader) (b : Bool) (out : Bytes) → length (encode h b out) ≡ length out
unfolding encode
length-encode h true out =
    length-encode_fields h 20 _
    ∙ length-put_at _ _ _
    ∙ length-put_at _ _ _
    ∙ length-put_at 0 (to_le 4 record_magic) out
length-encode h false out =
    length-encode_fields h 12 _ ∙ length-put_at _ _ _ ∙ length-put_at 0 (to_le 4 record_magic) out

pub length-image : (h : RecordHeader) (b : Bool) → length (image h b) ≡ header_len b
unfolding to_le
length-image h true = refl
length-image h false = refl
