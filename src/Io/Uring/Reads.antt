-- ===== src/Io/Uring/Reads.antt =====
-- A run of reads over the ring, short completions and any order of completions included.
use uol_ms_project.Prelude.{
  ne→==, false, ◌||◌, ◌⊎◌, take-append_left, length-replicate, take_all, length-drop, zero, suc,
  ◌^◌, ◌≢◌, sym, subst, drop, take, replicate, get_or, set, ==→eq, ==→ne, ℕ, ◌+◌, ◌-◌, ◌≤◌, ◌<◌,
  ◌≡◌, refl, ap, ◌∙◌, true, List, [], ◌∷◌, ◌++◌, length, length-append, All, ◌==◌, Bool-cases, inl,
  inr, arith,
}
use uol_ms_project.Bytes.{Bytes}
use uol_ms_project.Io.{File, IoCounters, IsFile, read_cells}
use uol_ms_project.Io.Parts.{read_cells-past}
use uol_ms_project.Io.Uring.{
  has_error, set_segment, advanced, no_segment, Run, IoSegment, failed, transferred, segment_at,
  len, handle, remove, settle, started, arrived, counted,
}
use uol_ms_project.Io.Uring.Reaches.{InFlight, Reaches, begin, submit, complete, IsAnswer}
use uol_ms_project.Io.Uring.Bounds.{reaches_bounds, settle_cases, All-InFlight}
use uol_ms_project.Io.Uring.Segments.{
  get_or-set_same, InFlight-remove, InFlight-append, InFlight-last, IsPart, IsRead, part-IsRead,
  advanced-IsPart,
}
use uol_ms_project.Io.Uring.Parts.{
  IsParts, DoneIf, IsReading, no_error, all_arrived, submit-IsReading, set-IsParts, other-done,
  whole-IsReading,
}

module _ (start : List IoSegment) (file : File) (is_file : IsFile file)
    (fits : (i : ℕ)
      → i < length start
      → ((get_or start i no_segment).offset + len (get_or start i no_segment) < 2 ^ 64)
        × (len (get_or start i no_segment) < 2 ^ 32)) where
  -- The segment whose entry completed with `n` bytes, which are in its memory.
  settle-IsReading :
      (id n : ℕ) (r : Run)
      → IsParts start file r
      → DoneIf (λ i. i ≢ id) start file r
      → id < length start
      → n ≤ len (segment_at r id)
      → take n (segment_at r id).under ≡ read_cells file.cell (segment_at r id).offset n
      → (n ≡ 0 → (n ≡ len (segment_at r id)) ⊎ (file.size ≤ (segment_at r id).offset))
      → IsReading start file (settle true id n r)
  settle-IsReading id n r h d known small e past =
      let whole = get_or start id no_segment in
      let part = segment_at r id in
      let p = h.parts id known in
      settle_cases (IsReading start file) true id n r
        (λ test. whole-IsReading start file id r h d (λ none_yet.
          let all : n ≡ len part = all_arrived n (len part) r.error test none_yet in
          part-IsRead file.cell whole part p (
            sym (take_all n part.under (omega (arith, all)))
            ∙ e
            ∙ ap (read_cells file.cell part.offset) all)))
        (λ (test, zero_bytes).
          let nothing : n ≡ 0 = ==→eq n 0 zero_bytes in
          let rest : IoSegment = record part { under = replicate (len part) 0 } in
          let count = length-replicate {A = ℕ} (len part) 0 in
          let q : IsPart file.cell whole rest = record {
            offset = p.offset;
            size = omega (arith, p.size, count);
            bytes = p.bytes;
          } in
          whole-IsReading start file id (set_segment id rest r)
            (set-IsParts start file id rest r h known q)
            (λ f i other below. other-done start file id rest r i other (d f i other below))
            (λ f.
              subst (IsRead file.cell whole)
                (sym (get_or-set_same r.segments id rest no_segment (omega (arith, h.same_count))))
                (part-IsRead file.cell whole rest q (
                  read_cells-past file part.offset (len part) is_file (at_end test (past nothing))
                  ∙ ap (read_cells file.cell part.offset) (sym count)))))
        (record {
          is_parts = record { same_file = h.same_file; same_count = h.same_count; parts = h.parts };
          done = λ f. absurd (no_error _ r.error f);
        })
        (λ test.
          let q = advanced-IsPart file.cell n whole part p (fits id known).0 small e in
          let next = set-IsParts start file id (advanced n part) r h known q in
          record {
            is_parts = record {
              same_file = next.same_file;
              same_count = next.same_count;
              parts = next.parts;
            };
            done = λ f i _ below. elim (Bool-cases (i == id)) [
              | inl same ↦ inl (
                  subst (λ k. InFlight k (r.queue ++ id ∷ [])) (sym (==→eq i id same))
                    (InFlight-last id r.queue))
              | inr other ↦
                  elim (other-done start file id (advanced n part) r i (==→ne i id other)
                    (d f i (==→ne i id other) below)) [
                      | inl g ↦ inl (InFlight-append i id r.queue g)
                      | inr read ↦ inr read
                    ]
            ];
          })
    where
      at_end :
          (n == len (segment_at r id)) || has_error r ≡ false
          → (n ≡ len (segment_at r id)) ⊎ (file.size ≤ (segment_at r id).offset)
          → file.size ≤ (segment_at r id).offset
      at_end test (inl all) = absurd (ground (arith, test, ne→== n _, all))
      at_end test (inr over) = over

  failed-IsReading :
      (id number : ℕ) (r : Run)
      → IsReading start file r
      → IsReading start file (handle true id (failed number) r)
  unfolding handle
  failed-IsReading id number r h = record {
    is_parts = record {
      same_file = h.is_parts.same_file;
      same_count = h.is_parts.same_count;
      parts = h.is_parts.parts;
    };
    done = λ f. absurd (no_error _ r.error f);
  }

  transferred-IsReading :
      (id : ℕ) (bytes : Bytes) (r : Run)
      → IsReading start file r
      → id < length start
      → IsAnswer true (segment_at r id) r.file (transferred bytes)
      → IsReading start file (handle true id (transferred bytes) r)
  unfolding handle
  transferred-IsReading id bytes r h known (small, e, past) =
      let part = segment_at r id in
      let n = length bytes in
      let now : IoSegment = record part { under = bytes ++ drop n part.under } in
      let taken : Run = record r { queue = remove id r.queue; pending = r.pending - 1 } in
      let same_len : len now ≡ len part =
        omega (arith, length-append bytes (drop n part.under), length-drop n part.under, small) in
      let word : len part < 2 ^ 32 =
        omega (arith, (h.is_parts.parts id known).size, (fits id known).1) in
      let p = h.is_parts.parts id known in
      let arrived_parts =
        set-IsParts start file id now taken
          (record {
            same_file = h.is_parts.same_file;
            same_count = h.is_parts.same_count;
            parts = h.is_parts.parts;
          })
          known
          (record { offset = p.offset; size = omega (arith, p.size, same_len); bytes = p.bytes }) in
      let at : get_or (set r.segments id now) id no_segment ≡ now =
        get_or-set_same r.segments id now no_segment (omega (arith, h.is_parts.same_count)) in
      settle-IsReading id n (counted true n (arrived true id bytes taken))
        (record {
          same_file = arrived_parts.same_file;
          same_count = arrived_parts.same_count;
          parts = arrived_parts.parts;
        })
        (λ f i other below. other-done start file id now taken i other (elim (h.done f i tt below) [
          | inl g ↦ inl (InFlight-remove i id r.queue other g)
          | inr read ↦ inr read
        ]))
        known (omega (arith, ap len at, same_len, small))
        (ap (λ (q : IoSegment). take n q.under) at
          ∙ take-append_left n bytes (drop n part.under) refl
          ∙ e
          ∙ (λ i. read_cells (h.is_parts.same_file i).cell (sym at i).offset n))
        (λ nothing. elim (past nothing) [
          | inl none_asked ↦ inl (omega (arith, ap len at, same_len, none_asked, word, nothing))
          | inr over ↦ inr (
              omega (
                arith,
                over,
                ap (λ (q : IoSegment). q.offset) at,
                ap (λ (f : File). f.size) h.is_parts.same_file,
              ))
        ])

  fresh-IsPart :
      (segments : List IoSegment)
      → All (λ (segment : IoSegment). segment.moved ≡ []) segments
      → (i : ℕ) → i < length segments
      → IsPart file.cell (get_or segments i no_segment) (get_or segments i no_segment)
  fresh-IsPart [] h i small = absurd (omega arith)
  fresh-IsPart (segment ∷ segments) (h, hs) zero small = record {
    offset = omega (arith, ap length h);
    size = omega (arith, ap length h);
    bytes = h ∙ ap (λ n. read_cells file.cell segment.offset n) (sym (ap length h));
  }
  fresh-IsPart (segment ∷ segments) (h, hs) (suc i) small = fresh-IsPart segments hs i (omega arith)

  pub reaches-IsReading :
      (depth : ℕ) (counters : IoCounters) (r : Run)
      → All (λ (segment : IoSegment). segment.moved ≡ []) start
      → Reaches true depth (started start counters file) r
      → IsReading start file r
  reaches-IsReading depth counters r fresh begin = record {
    is_parts = record {
      same_file = refl;
      same_count = refl;
      parts = λ i small. fresh-IsPart start fresh i small;
    };
    done = λ f i _ below. absurd (omega arith);
  }
  reaches-IsReading depth counters _ fresh (submit r p e) =
      submit-IsReading start file r (reaches-IsReading depth counters r fresh p)
  reaches-IsReading depth counters _ fresh (complete r id (failed number) p f a) =
      failed-IsReading id number r (reaches-IsReading depth counters r fresh p)
  reaches-IsReading depth counters _ fresh (complete r id (transferred bytes) p f a) =
      let h = reaches-IsReading depth counters r fresh p in
      let c = reaches_bounds true depth start counters file r p in
      transferred-IsReading id bytes r h
        (omega (
          arith,
          All-InFlight (λ k. k < r.next) id r.queue f c.submitted,
          c.bound,
          h.is_parts.same_count,
        ))
        a
