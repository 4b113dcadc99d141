-- ===== src/Io/Uring/Reaches.antt =====
-- The states that a run over the ring can reach: the queue is filled one entry at a time, and the
-- entries complete in any order.
use uol_ms_project.Prelude.{ℕ, ◌⊎◌, ◌≤◌, ◌≡◌, Bool, true, false, take, List, ◌∷◌, length}
use uol_ms_project.Io.{File, read_cells}
use uol_ms_project.Io.Uring.{
  Run, IoSegment, Completion, failed, transferred, segment_at, asked, may_submit, submit_next,
  handle,
}

-- The entry is in flight.
pub data InFlight (id : ℕ) : List ℕ → Type 0 where
  here : (queue : List ℕ) → InFlight id (id ∷ queue)
  there : (k : ℕ) (queue : List ℕ) → InFlight id queue → InFlight id (k ∷ queue)

-- What the system may answer: an error, or at most as many bytes as were asked for. A read gives the
-- bytes of the file, and none only at its end, or where none were asked for.
abbrev pub IsAnswer : Bool → IoSegment → File → Completion → Type 0
IsAnswer is_read segment file (failed number) = Unit {0}
IsAnswer true segment file (transferred bytes) =
    (length bytes ≤ asked segment)
    × (bytes ≡ read_cells file.cell segment.offset (length bytes))
    × (length bytes ≡ 0 → (asked segment ≡ 0) ⊎ (file.size ≤ segment.offset))
IsAnswer false segment file (transferred bytes) =
    (length bytes ≤ asked segment) × (bytes ≡ take (length bytes) segment.under)

pub data Reaches (is_read : Bool) (depth : ℕ) (start : Run) : Run → Type 0 where
  begin : Reaches is_read depth start start
  submit :
      (r : Run)
      → Reaches is_read depth start r
      → may_submit depth r ≡ true
      → Reaches is_read depth start (submit_next r)
  complete :
      (r : Run) (id : ℕ) (completion : Completion)
      → Reaches is_read depth start r
      → InFlight id r.queue
      → IsAnswer is_read (segment_at r id) r.file completion
      → Reaches is_read depth start (handle is_read id completion r)
