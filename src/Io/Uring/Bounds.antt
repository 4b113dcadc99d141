-- ===== src/Io/Uring/Bounds.antt =====
-- The count of a run over the ring, and the length of its queue.
use uol_ms_project.Prelude.{
  sym, subst, ◌⊎◌, ==→ne, ℕ, ◌+◌, ◌-◌, ◌≤◌, ◌<◌, ◌≡◌, refl, ap, Bool, true, false, ◌||◌, ◌&&◌, not,
  List, [], ◌∷◌, ◌++◌, length, length-append, length-set, All, ◌==◌, Bool-cases, inl, inr, arith,
}
use uol_ms_project.Io.{File, IoCounters}
use uol_ms_project.Io.Uring.{
  submit_again, first_error, zero_rest, has_error, Run, IoSegment, Completion, failed, transferred,
  segment_at, len, may_submit, submit_next, handle, remove, settle, started, arrived, counted,
}
use uol_ms_project.Io.Uring.Reaches.{InFlight, here, there, Reaches, begin, submit, complete}
use uol_ms_project.Bytes.{Bytes}
use uol_ms_project.Error.{write_zero, io_error}

-- `pending` counts the queue, the queue is no longer than its depth, and its entries were submitted.
pub record IsCounted (depth : ℕ) (r : Run) : Type 0 where
  pub counts : r.pending ≡ length r.queue
  pub fits : length r.queue ≤ depth
  pub bound : r.next ≤ length r.segments
  pub submitted : All (λ id. id < r.next) r.queue

-- The entry is the first of the queue, or it is behind it.
pub InFlight-cases :
    (id k : ℕ) (queue : List ℕ) → InFlight id (k ∷ queue) → (k ≡ id) ⊎ InFlight id queue
InFlight-cases id k queue (here _) = inl refl
InFlight-cases id k queue (there _ _ f) = inr f

length-remove :
    (id : ℕ) (queue : List ℕ) → InFlight id queue → length (remove id queue) + 1 ≡ length queue
length-remove id [] f = elim f [ ]
length-remove id (k ∷ queue) f = elim (Bool-cases (k == id)) [
  | inl same ↦ rw same (omega arith)
  | inr other ↦ elim (InFlight-cases id k queue f) [
    | inl first ↦ absurd (==→ne k id other first)
    | inr behind ↦ rw other (omega (arith, length-remove id queue behind))
  ]
]

pub All-remove : (P : ℕ → Type 0) (id : ℕ) (queue : List ℕ) → All P queue → All P (remove id queue)
All-remove P id [] h = tt
All-remove P id (k ∷ queue) (h, hs) = elim (Bool-cases (k == id)) [
  | inl same ↦ rw same hs
  | inr other ↦ rw other (h, All-remove P id queue hs)
]

pub All-InFlight :
    (P : ℕ → Type 0) (id : ℕ) (queue : List ℕ) → InFlight id queue → All P queue → P id
All-InFlight P id [] f h = elim f [ ]
All-InFlight P id (k ∷ queue) f (h, hs) = elim (InFlight-cases id k queue f) [
  | inl first ↦ subst P first h
  | inr behind ↦ All-InFlight P id queue behind hs
]

All-append_one :
    (P : ℕ → Type 0) (queue : List ℕ) (id : ℕ) → All P queue → P id → All P (queue ++ id ∷ [])
All-append_one P [] id h p = (p, tt)
All-append_one P (k ∷ queue) id (h, hs) p = (h, All-append_one P queue id hs p)

All-weaken : (P Q : ℕ → Type 0) (queue : List ℕ) → ((k : ℕ) → P k → Q k) → All P queue → All Q queue
All-weaken P Q [] f h = tt
All-weaken P Q (k ∷ queue) f (h, hs) = (f k h, All-weaken P Q queue f hs)

-- The four ways in which a completion is settled.
pub settle_cases :
    (P : Run → Type 0) (is_read : Bool) (id n : ℕ) (r : Run)
    → ((n == len (segment_at r id)) || has_error r ≡ true → P r)
    → (((n == len (segment_at r id)) || has_error r ≡ false) × (is_read && n == 0 ≡ true)
        → P (zero_rest id r))
    → P (record r { error = first_error (io_error write_zero) r.error })
    → (((n == len (segment_at r id)) || has_error r ≡ false)
          × (is_read && n == 0 ≡ false)
          × (not is_read && n == 0 ≡ false)
        → P (submit_again id n r))
    → P (settle is_read id n r)
settle_cases P is_read id n r whole past none_written short =
    elim (Bool-cases ((n == len (segment_at r id)) || has_error r)) [
      | inl e ↦ rw e (whole e)
      | inr e ↦ rw e (elim (Bool-cases (is_read && n == 0)) [
        | inl f ↦ rw f (past (e, f))
        | inr f ↦ rw f (elim (Bool-cases (not is_read && n == 0)) [
          | inl g ↦ rw g none_written
          | inr g ↦ rw g (short (e, f, g))
        ])
      ])
    ]

-- A completed entry left a place in the queue.
settle-IsCounted :
    (is_read : Bool) (depth id n : ℕ) (r : Run)
    → IsCounted depth r
    → length r.queue < depth
    → id < r.next
    → IsCounted depth (settle is_read id n r)
settle-IsCounted is_read depth id n r c room known =
    settle_cases (IsCounted depth) is_read id n r (λ e. c)
      (λ e. record {
        counts = c.counts;
        fits = c.fits;
        bound = subst (λ m. r.next ≤ m) (sym (length-set r.segments id _)) c.bound;
        submitted = c.submitted;
      })
      (record { counts = c.counts; fits = c.fits; bound = c.bound; submitted = c.submitted })
      (λ e. record {
        counts = omega (arith, c.counts, length-append r.queue (id ∷ []));
        fits = omega (arith, room, length-append r.queue (id ∷ []));
        bound = subst (λ m. r.next ≤ m) (sym (length-set r.segments id _)) c.bound;
        submitted = All-append_one (λ k. k < r.next) r.queue id c.submitted known;
      })

arrived-IsCounted :
    (is_read : Bool) (depth id : ℕ) (bytes : Bytes) (r : Run)
    → IsCounted depth r
    → IsCounted depth (counted is_read (length bytes) (arrived is_read id bytes r))
arrived-IsCounted true depth id bytes r c = record {
  counts = c.counts;
  fits = c.fits;
  bound = subst (λ m. r.next ≤ m) (sym (length-set r.segments id _)) c.bound;
  submitted = c.submitted;
}
arrived-IsCounted false depth id bytes r c = record {
  counts = c.counts;
  fits = c.fits;
  bound = c.bound;
  submitted = c.submitted;
}

pub arrived-same :
    (is_read : Bool) (id : ℕ) (bytes : Bytes) (r : Run)
    → let t = counted is_read (length bytes) (arrived is_read id bytes r) in
      (t.queue ≡ r.queue) × (t.next ≡ r.next)
arrived-same true id bytes r = (refl, refl)
arrived-same false id bytes r = (refl, refl)

taken-IsCounted :
    (depth id : ℕ) (r : Run)
    → IsCounted depth r
    → InFlight id r.queue
    → IsCounted depth (record r { queue = remove id r.queue; pending = r.pending - 1 })
taken-IsCounted depth id r c f = record {
  counts = omega (arith, c.counts, length-remove id r.queue f);
  fits = omega (arith, c.fits, length-remove id r.queue f);
  bound = c.bound;
  submitted = All-remove (λ k. k < r.next) id r.queue c.submitted;
}

handle-IsCounted :
    (is_read : Bool) (depth id : ℕ) (completion : Completion) (r : Run)
    → IsCounted depth r
    → InFlight id r.queue
    → IsCounted depth (handle is_read id completion r)
unfolding handle
handle-IsCounted is_read depth id (failed number) r c f =
    let t = taken-IsCounted depth id r c f in
    record { counts = t.counts; fits = t.fits; bound = t.bound; submitted = t.submitted }
handle-IsCounted is_read depth id (transferred bytes) r c f =
    let taken : Run = record r { queue = remove id r.queue; pending = r.pending - 1 } in
    let same = arrived-same is_read id bytes taken in
    settle-IsCounted is_read depth id (length bytes)
      (counted is_read (length bytes) (arrived is_read id bytes taken))
      (arrived-IsCounted is_read depth id bytes taken (taken-IsCounted depth id r c f))
      (omega (arith, ap length same.0, c.fits, length-remove id r.queue f))
      (omega (arith, same.1, All-InFlight (λ k. k < r.next) id r.queue f c.submitted))

submit-IsCounted :
    (depth : ℕ) (r : Run)
    → IsCounted depth r
    → may_submit depth r ≡ true
    → IsCounted depth (submit_next r)
submit-IsCounted depth r c e = record {
  counts = omega (arith, c.counts, length-append r.queue (r.next ∷ []));
  fits = omega (arith, c.counts, (tests e).0, length-append r.queue (r.next ∷ []));
  bound = omega (arith, (tests e).1);
  submitted =
      All-append_one (λ k. k < r.next + 1) r.queue r.next
        (All-weaken (λ k. k < r.next) (λ k. k < r.next + 1) r.queue (λ k h. omega arith)
          c.submitted)
        (omega arith);
}
  where
    tests : may_submit depth r ≡ true → (r.pending < depth) × (r.next < length r.segments)
    tests e = ground (arith, e)

-- In every state that a run over the ring reaches, `pending` is the number of entries in flight, they
-- are no more than the depth, each belongs to a segment that was submitted, and no segment past the
-- last is submitted.
pub reaches_bounds :
    (is_read : Bool) (depth : ℕ) (segments : List IoSegment) (counters : IoCounters) (file : File)
    (r : Run)
    → Reaches is_read depth (started segments counters file) r
    → IsCounted depth r
reaches_bounds is_read depth segments counters file r begin = record {
  counts = refl;
  fits = omega arith;
  bound = omega arith;
  submitted = tt;
}
reaches_bounds is_read depth segments counters file _ (submit r p e) =
    submit-IsCounted depth r (reaches_bounds is_read depth segments counters file r p) e
reaches_bounds is_read depth segments counters file _ (complete r id completion p f a) =
    handle-IsCounted is_read depth id completion r
      (reaches_bounds is_read depth segments counters file r p) f
