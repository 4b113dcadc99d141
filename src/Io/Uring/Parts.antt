-- ===== src/Io/Uring/Parts.antt =====
-- What a run of reads over the ring keeps of its segments.
use uol_ms_project.Prelude.{
  ◌≢◌, ◌⊎◌, sym, subst, get_or, set, ==→eq, ==→ne, Option, ltb→le, ℕ, ◌<◌, ◌≡◌, ◌∙◌, true, false,
  ◌||◌, List, [], ◌∷◌, ◌++◌, length, length-set, ◌==◌, ltb, ltb→lt, Bool-cases, inl, inr, some,
  none, arith,
}
use uol_ms_project.Error.{HeapError}
use uol_ms_project.Io.{File}
use uol_ms_project.Io.Uring.{
  set_segment, no_segment, first_error, Run, IoSegment, segment_at, submit_next,
}
use uol_ms_project.Io.Uring.Reaches.{InFlight}
use uol_ms_project.Io.Uring.Segments.{
  get_or-set_same, get_or-set_other, InFlight-append, InFlight-last, IsPart, IsRead,
}

-- What a run of reads from the segments `start` keeps.
pub record IsParts (start : List IoSegment) (file : File) (r : Run) : Type 0 where
  pub same_file : r.file ≡ file
  pub same_count : length r.segments ≡ length start
  pub parts :
      (i : ℕ) → i < length start → IsPart file.cell (get_or start i no_segment) (segment_at r i)

-- Without an error, a segment that was submitted is in flight or read.
abbrev pub DoneIf : (ℕ → Type 0) → List IoSegment → File → Run → Type 0
DoneIf P start file r =
    r.error ≡ none
    → (i : ℕ) → P i
    → i < r.next
    → InFlight i r.queue ⊎ IsRead file.cell (get_or start i no_segment) (segment_at r i)

pub record IsReading (start : List IoSegment) (file : File) (r : Run) : Type 0 where
  pub is_parts : IsParts start file r
  pub done : DoneIf (λ i. Unit {0}) start file r

pub no_error : (e : HeapError) (error : Option HeapError) → first_error e error ≡ none → ⊥
no_error e none q = ground (arith, q)
no_error e (some earlier) q = ground (arith, q)

-- All the bytes arrived, unless there is an error.
pub all_arrived :
    (n k : ℕ) (error : Option HeapError)
    → (n == k) || (elim error [ none ↦ false | some e ↦ true ]) ≡ true
    → error ≡ none
    → n ≡ k
all_arrived n k none h e = elim (Bool-cases (n == k)) [
  | inl same ↦ ==→eq n k same
  | inr other ↦ absurd (ground (arith, other, h))
]
all_arrived n k (some x) h e = absurd (ground (arith, e))

module _ (start : List IoSegment) (file : File) where
  pub submit-IsReading : (r : Run) → IsReading start file r → IsReading start file (submit_next r)
  submit-IsReading r h = record {
    is_parts = record {
      same_file = h.is_parts.same_file;
      same_count = h.is_parts.same_count;
      parts = h.is_parts.parts;
    };
    done = λ e i _ small. elim (Bool-cases (ltb i r.next)) [
      | inl before ↦ elim (h.done e i tt (ltb→lt i r.next before)) [
        | inl f ↦ inl (InFlight-append i r.next r.queue f)
        | inr read ↦ inr read
      ]
      | inr last ↦
          let same : i ≡ r.next = omega (arith, ltb→le i r.next last) in
          inl (
            subst (λ k. InFlight k (r.queue ++ r.next ∷ [])) (sym same)
              (InFlight-last r.next r.queue))
    ];
  }

  -- One segment changes.
  pub set-IsParts :
      (id : ℕ) (segment : IoSegment) (r : Run)
      → IsParts start file r
      → id < length start
      → IsPart file.cell (get_or start id no_segment) segment
      → IsParts start file (set_segment id segment r)
  set-IsParts id segment r h known p = record {
    same_file = h.same_file;
    same_count = length-set r.segments id segment ∙ h.same_count;
    parts = λ i small. elim (Bool-cases (i == id)) [
      | inl same ↦
          subst
            (λ k.
              IsPart file.cell (get_or start k no_segment)
                (get_or (set r.segments id segment) k no_segment))
            (sym (==→eq i id same))
            (subst (IsPart file.cell (get_or start id no_segment))
              (sym (get_or-set_same r.segments id segment no_segment (omega (arith, h.same_count))))
              p)
      | inr other ↦
          subst (IsPart file.cell (get_or start i no_segment))
            (sym (get_or-set_other r.segments id i segment no_segment (==→ne i id other)))
            (h.parts i small)
    ];
  }

  -- The others are in flight or read as before.
  pub other-done :
      (id : ℕ) (segment : IoSegment) (r : Run) (i : ℕ)
      → i ≢ id
      → InFlight i r.queue ⊎ IsRead file.cell (get_or start i no_segment) (segment_at r i)
      → InFlight i r.queue
        ⊎ IsRead file.cell (get_or start i no_segment) (segment_at (set_segment id segment r) i)
  other-done id segment r i other (inl f) = inl f
  other-done id segment r i other (inr read) = inr (
      subst (IsRead file.cell (get_or start i no_segment))
        (sym (get_or-set_other r.segments id i segment no_segment other)) read)

  pub whole-IsReading :
      (id : ℕ) (r : Run)
      → IsParts start file r
      → DoneIf (λ i. i ≢ id) start file r
      → (r.error ≡ none → IsRead file.cell (get_or start id no_segment) (segment_at r id))
      → IsReading start file r
  whole-IsReading id r h d read = record {
    is_parts = h;
    done = λ e i _ small. elim (Bool-cases (i == id)) [
      | inl same ↦
          subst
            (λ k.
              InFlight k r.queue ⊎ IsRead file.cell (get_or start k no_segment) (segment_at r k))
            (sym (==→eq i id same)) (inr (read e))
      | inr other ↦ d e i (==→ne i id other) small
    ];
  }
