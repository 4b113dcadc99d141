-- ===== src/Io/Uring/Loop.antt =====
-- The loops of `run` of src/io/uring.rs, for completions that come in batches.
use uol_ms_project.Prelude.{
  none, true, some, ◌≡◌, Option, ◌<◌, ℕ, zero, suc, Bool, List, [], ◌∷◌, length, ◌==◌,
  if◌then◌else◌,
}
use uol_ms_project.Io.Uring.{
  Run, Completion, segment_at, may_submit, submit_next, is_running, handle,
}
use uol_ms_project.Io.Uring.Reaches.{InFlight, IsAnswer}

-- The loop that keeps the queue full; each turn submits a segment, so their number is fuel enough.
unfoldable pub fill : ℕ → ℕ → Run → Run
fill zero depth r = r
fill (suc fuel) depth r =
    let more = fill fuel depth (submit_next r) in if may_submit depth r then more else r

-- The loop over the completions of one wait.
unfoldable pub handle_all : Bool → List (ℕ × Completion) → Run → Run
unfolding handle
handle_all is_read [] r = r
handle_all is_read ((id, completion) ∷ rest) r =
    handle_all is_read rest (handle is_read id completion r)

-- The outer loop, over the batches that the ring delivers: it fills the queue, breaks if nothing is
-- in flight, and handles what one wait delivers. It waits for ever where the ring delivers no more.
unfoldable pub run : Bool → ℕ → List (List (ℕ × Completion)) → Run → Option Run
unfolding fill handle_all
run is_read depth [] r = if is_running r then none else some r
run is_read depth (batch ∷ batches) r =
    let filled = fill (length r.segments) depth r in
    let rest = run is_read depth batches (handle_all is_read batch filled) in
    if is_running r then (if filled.pending == 0 then some filled else rest) else some r

-- The system may give these answers, one after the other.
abbrev pub AreAnswers : Bool → List (ℕ × Completion) → Run → Type 0
AreAnswers is_read [] r = Unit {0}
AreAnswers is_read ((id, completion) ∷ rest) r =
    (InFlight id r.queue × IsAnswer is_read (segment_at r id) r.file completion)
    × AreAnswers is_read rest (handle is_read id completion r)

-- The ring may deliver these batches: each wait of the run, with entries in flight, is answered by
-- one completion at least.
abbrev pub AreBatches : Bool → ℕ → List (List (ℕ × Completion)) → Run → Type 0
AreBatches is_read depth [] r = Unit {0}
AreBatches is_read depth (batch ∷ batches) r =
    is_running r ≡ true
    → 0 < (fill (length r.segments) depth r).pending
    → (0 < length batch)
      × AreAnswers is_read batch (fill (length r.segments) depth r)
      × AreBatches is_read depth batches
          (handle_all is_read batch (fill (length r.segments) depth r))
