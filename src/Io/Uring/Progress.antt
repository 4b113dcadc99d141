-- ===== src/Io/Uring/Progress.antt =====
-- A run ends: every completion takes some of the work, and there is only so much.
use uol_ms_project.Prelude.{
  length-replicate, replicate, length-set, ==→eq, ==→ne, ℕ, zero, suc, ◌+◌, ◌-◌, ◌≤◌, ◌<◌, ◌≡◌,
  refl, ap, ◌∙◌, Bool, true, false, ◌&&◌, not, List, [], ◌∷◌, ◌++◌, length, length-append, drop,
  length-drop, get_or, set, ◌==◌, Bool-cases, inl, inr, arith,
}
use uol_ms_project.Bytes.{Bytes}
use uol_ms_project.Io.{File, IoCounters}
use uol_ms_project.Io.Uring.{
  set_segment, Run, IoSegment, Completion, failed, transferred, segment_at, len, may_submit,
  submit_next, handle, remove, settle, started, arrived, counted, no_segment, advanced,
}
use uol_ms_project.Io.Uring.Reaches.{InFlight, Reaches, begin, submit, complete, IsAnswer}
use uol_ms_project.Io.Uring.Bounds.{
  arrived-same, IsCounted, reaches_bounds, settle_cases, All-InFlight, InFlight-cases,
}
use uol_ms_project.Io.Uring.Segments.{get_or-set_same}

-- A segment may take as many completions as it has bytes, and one more.
abbrev pub segments_work : List IoSegment → ℕ
segments_work [] = 0
segments_work (segment ∷ segments) = len segment + 1 + segments_work segments

abbrev pub queue_work : List IoSegment → List ℕ → ℕ
queue_work segments [] = 0
queue_work segments (id ∷ queue) =
    len (get_or segments id no_segment) + 1 + queue_work segments queue

-- The work of the entries in flight, and of the segments that are not submitted.
abbrev pub work : Run → ℕ
work r = queue_work r.segments r.queue + segments_work (drop r.next r.segments)

abbrev pub completions :
    {is_read : Bool} {depth : ℕ} {start r : Run} → Reaches is_read depth start r → ℕ
completions begin = 0
completions (submit r p e) = completions p
completions (complete r id completion p f a) = completions p + 1

queue_work-remove :
    (segments : List IoSegment) (id : ℕ) (queue : List ℕ)
    → InFlight id queue
    → queue_work segments (remove id queue) + (len (get_or segments id no_segment) + 1)
      ≡ queue_work segments queue
queue_work-remove segments id [] f = elim f [ ]
queue_work-remove segments id (k ∷ queue) f = elim (Bool-cases (k == id)) [
  | inl same ↦
      let at = ap (λ j. len (get_or segments j no_segment)) (==→eq k id same) in
      rw same (omega (arith, at))
  | inr other ↦ elim (InFlight-cases id k queue f) [
    | inl first ↦ absurd (==→ne k id other first)
    | inr behind ↦ rw other (omega (arith, queue_work-remove segments id queue behind))
  ]
]

queue_work-append :
    (segments : List IoSegment) (queue : List ℕ) (id : ℕ)
    → queue_work segments (queue ++ id ∷ [])
      ≡ queue_work segments queue + (len (get_or segments id no_segment) + 1)
queue_work-append segments [] id = omega arith
queue_work-append segments (k ∷ queue) id = omega (arith, queue_work-append segments queue id)

-- A segment that did not get longer.
len-set :
    (segments : List IoSegment) (id k : ℕ) (segment : IoSegment)
    → len segment ≤ len (get_or segments id no_segment)
    → len (get_or (set segments id segment) k no_segment) ≤ len (get_or segments k no_segment)
len-set [] id k segment h = omega arith
len-set (s ∷ segments) zero zero segment h = h
len-set (s ∷ segments) zero (suc k) segment h = omega arith
len-set (s ∷ segments) (suc id) zero segment h = omega arith
len-set (s ∷ segments) (suc id) (suc k) segment h = len-set segments id k segment h

queue_work-set :
    (segments : List IoSegment) (id : ℕ) (segment : IoSegment) (queue : List ℕ)
    → len segment ≤ len (get_or segments id no_segment)
    → queue_work (set segments id segment) queue ≤ queue_work segments queue
queue_work-set segments id segment [] h = omega arith
queue_work-set segments id segment (k ∷ queue) h =
    omega (arith, len-set segments id k segment h, queue_work-set segments id segment queue h)

drop-set :
    (segments : List IoSegment) (id next : ℕ) (segment : IoSegment)
    → id < next
    → drop next (set segments id segment) ≡ drop next segments
drop-set [] id next segment h = refl
drop-set (s ∷ segments) id zero segment h = absurd (omega arith)
drop-set (s ∷ segments) zero (suc next) segment h = refl
drop-set (s ∷ segments) (suc id) (suc next) segment h =
    drop-set segments id next segment (omega arith)

set-work :
    (id : ℕ) (segment : IoSegment) (r : Run)
    → id < r.next
    → len segment ≤ len (segment_at r id)
    → work (set_segment id segment r) ≤ work r
set-work id segment r h k = omega (
  arith,
  queue_work-set r.segments id segment r.queue k,
  ap segments_work (drop-set r.segments id r.next segment h),
)

segments_work-drop :
    (segments : List IoSegment) (next : ℕ)
    → next < length segments
    → segments_work (drop next segments)
      ≡ len (get_or segments next no_segment) + 1 + segments_work (drop (suc next) segments)
segments_work-drop [] next h = absurd (omega arith)
segments_work-drop (s ∷ segments) zero h = refl
segments_work-drop (s ∷ segments) (suc next) h = segments_work-drop segments next (omega arith)

pub submit-work : (depth : ℕ) (r : Run) → may_submit depth r ≡ true → work (submit_next r) ≡ work r
submit-work depth r e = omega (
  arith,
  queue_work-append r.segments r.queue r.next,
  segments_work-drop r.segments r.next (below e),
  ap (λ n. segments_work (drop n r.segments)) next_eq,
)
  where
    below : may_submit depth r ≡ true → r.next < length r.segments
    below e = ground (arith, e)

    next_eq : r.next + 1 ≡ suc r.next
    next_eq = omega arith

-- The rest of a segment is less work than the segment.
settle-work :
    (is_read : Bool) (id n : ℕ) (r : Run)
    → id < r.next
    → r.next ≤ length r.segments
    → n ≤ len (segment_at r id)
    → work (settle is_read id n r) ≤ work r + len (segment_at r id)
settle-work is_read id n r known bound small =
    settle_cases (λ t. work t ≤ work r + len (segment_at r id)) is_read id n r (λ e. omega arith)
      (λ e. omega (
        arith,
        set-work id (record (segment_at r id) { under = replicate (len (segment_at r id)) 0 }) r
            known (omega (arith, length-replicate {A = ℕ} (len (segment_at r id)) 0)),
      ))
      (omega arith)
      (λ (e, f, g).
        let part = segment_at r id in
        let some_bytes : 0 < n = moves is_read n f g in
        let rest : len (advanced n part) ≡ len part - n = length-drop n part.under in
        omega (
          arith,
          set-work id (advanced n part) r known (omega (arith, rest)),
          queue_work-append (set r.segments id (advanced n part)) r.queue id,
          ap len (
              get_or-set_same r.segments id (advanced n part) no_segment
                (omega (arith, known, bound))),
          rest,
          some_bytes,
        ))
  where
    moves : (b : Bool) (m : ℕ) → b && m == 0 ≡ false → not b && m == 0 ≡ false → 0 < m
    moves true m f g = omega (arith, ==→ne m 0 f)
    moves false m f g = omega (arith, ==→ne m 0 g)

arrived-work :
    (is_read : Bool) (id : ℕ) (bytes : Bytes) (r : Run)
    → id < r.next
    → r.next ≤ length r.segments
    → length bytes ≤ len (segment_at r id)
    → let t = counted is_read (length bytes) (arrived is_read id bytes r) in
      (work t ≤ work r)
      × (len (segment_at t id) ≡ len (segment_at r id))
      × (length t.segments ≡ length r.segments)
arrived-work false id bytes r known bound small = (omega arith, refl, refl)
arrived-work true id bytes r known bound small =
    let part = segment_at r id in
    let now : IoSegment = record part { under = bytes ++ drop (length bytes) part.under } in
    let same : len now ≡ len part = omega (
      arith,
      length-append bytes (drop (length bytes) part.under),
      length-drop (length bytes) part.under,
    ) in
    (
      set-work id now r known (omega (arith, same)),
      ap len (get_or-set_same r.segments id now no_segment (omega (arith, known, bound))) ∙ same,
      length-set r.segments id now,
    )

pub handle-work :
    (is_read : Bool) (depth id : ℕ) (completion : Completion) (r : Run)
    → IsCounted depth r
    → InFlight id r.queue
    → IsAnswer is_read (segment_at r id) r.file completion
    → work (handle is_read id completion r) < work r
unfolding handle
handle-work is_read depth id (failed number) r c f a =
    omega (arith, queue_work-remove r.segments id r.queue f)
handle-work is_read depth id (transferred bytes) r c f a =
    let taken : Run = record r { queue = remove id r.queue; pending = r.pending - 1 } in
    let known = All-InFlight (λ k. k < r.next) id r.queue f c.submitted in
    let small = no_more is_read a in
    let w = arrived-work is_read id bytes taken known c.bound small in
    let t = counted is_read (length bytes) (arrived is_read id bytes taken) in
    let same = arrived-same is_read id bytes taken in
    omega (
      arith,
      settle-work is_read id (length bytes) t (omega (arith, known, same.1))
          (omega (arith, w.2, c.bound, same.1)) (omega (arith, w.1, small)),
      w.0,
      w.1,
      queue_work-remove r.segments id r.queue f,
    )
  where
    no_more :
        (b : Bool)
        → IsAnswer b (segment_at r id) r.file (transferred bytes)
        → length bytes ≤ len (segment_at r id)
    no_more true h = omega (arith, h.0)
    no_more false h = omega (arith, h.0)

-- A run over the ring, of reads or of writes, has at most as many completions as its segments have
-- bytes, and one more for each segment; the work that is left counts against the same bound.
pub completions_lem :
    (is_read : Bool) (depth : ℕ) (segments : List IoSegment) (counters : IoCounters) (file : File)
    (r : Run) (p : Reaches is_read depth (started segments counters file) r)
    → completions p + work r ≤ segments_work segments
completions_lem is_read depth segments counters file r begin = omega arith
completions_lem is_read depth segments counters file _ (submit r p e) =
    omega (arith, completions_lem is_read depth segments counters file r p, submit-work depth r e)
completions_lem is_read depth segments counters file _ (complete r id completion p f a) = omega (
  arith,
  completions_lem is_read depth segments counters file r p,
  handle-work is_read depth id completion r
      (reaches_bounds is_read depth segments counters file r p) f a,
)
