-- ===== src/Io/Uring/Ends.antt =====
-- How a run over the ring of src/io/uring.rs ends: its loops return, with nothing in flight.
use uol_ms_project.Prelude.{
  refl, not, ◌&&◌, ==→eq, ltb, ==→ne, subst, Option-cases, arith, ◌∙◌, none, true, ◌≢◌, some, false,
  ◌≡◌, ◌+◌, Option, ◌<◌, ◌≤◌, inr, inl, Bool-cases, ℕ, zero, suc, Bool, List, [], ◌∷◌, length, ◌==◌,
}
use uol_ms_project.Io.Uring.Bounds.{reaches_bounds}
use uol_ms_project.Io.Uring.Progress.{work, segments_work, submit-work, handle-work}
use uol_ms_project.Error.{HeapError}
use uol_ms_project.Io.{File, IoCounters}
use uol_ms_project.Io.Uring.{
  started, IoSegment, Run, Completion, may_submit, submit_next, is_running, handle,
}
use uol_ms_project.Io.Uring.Reaches.{Reaches, begin, submit, complete}
use uol_ms_project.Io.Uring.Loop.{fill, handle_all, run, AreAnswers, AreBatches}

-- The loop that fills the queue ends with nothing more to submit.
fill_full :
    (fuel depth : ℕ) (r : Run)
    → length r.segments ≤ fuel + r.next
    → may_submit depth (fill fuel depth r) ≡ false
unfolding fill
fill_full zero depth r h = ground (arith, h)
fill_full (suc fuel) depth r h = elim (Bool-cases (may_submit depth r)) [
  | inl more ↦ rw more (fill_full fuel depth (submit_next r) (omega (arith, h)))
  | inr full ↦ rw full full
]

fill-work : (fuel depth : ℕ) (r : Run) → work (fill fuel depth r) ≡ work r
unfolding fill
fill-work zero depth r = refl
fill-work (suc fuel) depth r = elim (Bool-cases (may_submit depth r)) [
  | inl more ↦ rw more (fill-work fuel depth (submit_next r) ∙ submit-work depth r more)
  | inr full ↦ rw full refl
]

module _ (is_read : Bool) (depth : ℕ) (segments : List IoSegment) (counters : IoCounters)
    (file : File) where
  -- How a run ends: in a state that the relation allows, with nothing in flight, and every segment
  -- submitted if there was no error.
  pub record IsEnd (end : Run) : Type 0 where
    pub reached : Reaches is_read depth (started segments counters file) end
    pub idle : end.pending ≡ 0
    pub all : end.error ≡ none → end.next ≡ length end.segments

  fill-Reaches :
      (fuel : ℕ) (r : Run)
      → Reaches is_read depth (started segments counters file) r
      → Reaches is_read depth (started segments counters file) (fill fuel depth r)
  unfolding fill
  fill-Reaches zero r h = h
  fill-Reaches (suc fuel) r h = elim (Bool-cases (may_submit depth r)) [
    | inl more ↦ rw more (fill-Reaches fuel (submit_next r) (submit r h more))
    | inr full ↦ rw full h
  ]

  handle_all-Reaches :
      (batch : List (ℕ × Completion)) (r : Run)
      → Reaches is_read depth (started segments counters file) r
      → AreAnswers is_read batch r
      → Reaches is_read depth (started segments counters file) (handle_all is_read batch r)
  unfolding handle_all
  handle_all-Reaches [] r h a = h
  handle_all-Reaches ((id, completion) ∷ rest) r h (a, others) =
      handle_all-Reaches rest (handle is_read id completion r) (complete r id completion h a.0 a.1)
        others

  handle_all-work :
      (batch : List (ℕ × Completion)) (r : Run)
      → Reaches is_read depth (started segments counters file) r
      → AreAnswers is_read batch r
      → work (handle_all is_read batch r) + length batch ≤ work r
  unfolding handle_all
  handle_all-work [] r h a = omega arith
  handle_all-work ((id, completion) ∷ rest) r h (a, others) = omega (
    arith,
    handle-work is_read depth id completion r
        (reaches_bounds is_read depth segments counters file r h) a.0 a.1,
    handle_all-work rest (handle is_read id completion r) (complete r id completion h a.0 a.1)
        others,
  )

  -- The loop's own condition fails.
  stopped-IsEnd :
      (r : Run)
      → Reaches is_read depth (started segments counters file) r
      → is_running r ≡ false
      → IsEnd r
  stopped-IsEnd r h stopped =
      let bound = (reaches_bounds is_read depth segments counters file r h).bound in
      let over : (length r.segments ≤ r.next) × (r.pending ≡ 0) = ground (arith, stopped) in
      record { reached = h; idle = over.1; all = λ e. omega (arith, over, bound) }

  -- The `break`: with room in the queue nothing is left to submit, or there was an error.
  broken-IsEnd :
      (r : Run)
      → 0 < depth
      → Reaches is_read depth (started segments counters file) r
      → may_submit depth r ≡ false
      → r.pending ≡ 0
      → IsEnd r
  broken-IsEnd r room h full idle =
      let bound = (reaches_bounds is_read depth segments counters file r h).bound in
      record {
        reached = h;
        idle = idle;
        all = λ e.
            let left = past r.pending r.next (length r.segments) r.error room idle e full in
            omega (arith, left, bound);
      }
    where
      past :
          (pending next count : ℕ) (error : Option HeapError)
          → 0 < depth
          → pending ≡ 0
          → error ≡ none
          → ltb pending depth && ltb next count && not (elim error [ none ↦ false | some e ↦ true ])
            ≡ false
          → count ≤ next
      past pending next count none room idle e full = ground (arith, room, idle, full)
      past pending next count (some f) room idle e full = absurd (ground (arith, e))

  abbrev EndsWell : Option Run → Type 0
  EndsWell none = Unit {0}
  EndsWell (some end) = IsEnd end

  run-EndsWell :
      (batches : List (List (ℕ × Completion))) (r : Run)
      → 0 < depth
      → Reaches is_read depth (started segments counters file) r
      → AreBatches is_read depth batches r
      → EndsWell (run is_read depth batches r)
  unfolding run
  run-EndsWell [] r room h a = elim (Bool-cases (is_running r)) [
    | inl on ↦ rw on tt
    | inr ended ↦ rw ended (stopped-IsEnd r h ended)
  ]
  run-EndsWell (batch ∷ batches) r room h a = elim (Bool-cases (is_running r)) [
    | inr ended ↦ rw ended (stopped-IsEnd r h ended)
    | inl on ↦
        let filled = fill (length r.segments) depth r in
        let reached = fill-Reaches (length r.segments) r h in
        elim (Bool-cases (filled.pending == 0)) [
          | inl idle ↦
              rw (on, idle)
                (broken-IsEnd filled room reached
                  (fill_full (length r.segments) depth r (omega arith)) (==→eq _ _ idle))
          | inr busy ↦
              let given = a on (omega (arith, ==→ne _ _ busy)) in
              rw (on, busy)
                (run-EndsWell batches (handle_all is_read batch filled) room
                  (handle_all-Reaches batch filled reached given.1) given.2)
        ]
  ]

  run_returns :
      (batches : List (List (ℕ × Completion))) (r : Run)
      → Reaches is_read depth (started segments counters file) r
      → AreBatches is_read depth batches r
      → work r < length batches
      → run is_read depth batches r ≢ none
  unfolding run
  run_returns [] r h a enough = absurd (omega (arith, enough))
  run_returns (batch ∷ batches) r h a enough = elim (Bool-cases (is_running r)) [
    | inr ended ↦ rw ended (λ e. ground (arith, e))
    | inl on ↦
        let filled = fill (length r.segments) depth r in
        let reached = fill-Reaches (length r.segments) r h in
        elim (Bool-cases (filled.pending == 0)) [
          | inl idle ↦ rw (on, idle) (λ e. ground (arith, e))
          | inr busy ↦
              let given = a on (omega (arith, ==→ne _ _ busy)) in
              rw (on, busy)
                (run_returns batches (handle_all is_read batch filled)
                  (handle_all-Reaches batch filled reached given.1) given.2
                  (omega (
                    arith,
                    enough,
                    given.0,
                    handle_all-work batch filled reached given.1,
                    fill-work (length r.segments) depth r,
                  )))
        ]
  ]

  -- A run that returned, over answers that the system may give, ended as it should.
  pub returned-IsEnd :
      (batches : List (List (ℕ × Completion))) (end : Run)
      → 0 < depth
      → AreBatches is_read depth batches (started segments counters file)
      → run is_read depth batches (started segments counters file) ≡ some end
      → IsEnd end
  returned-IsEnd batches end room a e =
      subst EndsWell e (run-EndsWell batches (started segments counters file) room begin a)

  -- The run returns, and ends as it should.
  pub record Finishes (batches : List (List (ℕ × Completion))) : Type 0 where
    pub end : Run
    pub returned : run is_read depth batches (started segments counters file) ≡ some end
    pub is_end : IsEnd end

  -- The loops of `run` return after as many waits as the segments have bytes, and one more for each
  -- segment, and one: the depth is not 0, and each wait is answered by completions that the system
  -- may give, one at least. Then the state is one that the relation allows, nothing is in flight,
  -- and without an error every segment was submitted.
  pub run-Finishes :
      (batches : List (List (ℕ × Completion)))
      → 0 < depth
      → AreBatches is_read depth batches (started segments counters file)
      → segments_work segments < length batches
      → Finishes batches
  run-Finishes batches room a enough =
      let first = started segments counters file in
      elim (Option-cases (run is_read depth batches first)) [
        | inl nothing ↦ absurd (run_returns batches first begin a (omega (arith, enough)) nothing)
        | inr (end, returned) ↦ record {
          end = end;
          returned = returned;
          is_end = returned-IsEnd batches end room a returned;
        }
      ]
