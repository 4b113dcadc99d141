-- ===== src/Placement/Bucket.antt =====
-- src/bucket.rs: each bucket has extents of the data file and regions of record numbers, and a new
-- extent is split off another bucket's last extent, or taken behind the end of the file.
pub mod Grant
pub mod Logs
pub mod Search
pub mod Alloc
pub mod Replay
use uol_ms_project.Prelude.{
  ℕ, zero, suc, ◌+◌, ◌-◌, ◌*◌, ◌/◌, ◌^◌, max, Option, none, some, List, [], ◌∷◌, ◌++◌, length,
  get_elem?, set, ◌==◌, ltb, leb, if◌then◌else◌, add64,
}
use uol_ms_project.Format.{page_size, page_up}
use uol_ms_project.Io.{BlockIo}
use uol_ms_project.Placement.{HeapConfig, Files}

pub record Extent : Type 0 where
  pub start : ℕ
  pub size : ℕ
  pub used : ℕ

abbrev pub end_of : Extent → ℕ
end_of extent = add64 extent.start extent.size

-- `data` are the extents and `slots` the regions of a bucket, in the order of their grants.
pub record BucketState : Type 0 where
  pub id : ℕ
  pub extents : List Extent
  pub slots : List Extent

-- `bucket_indices` is a hash map of which only lookups and insertions are made.
pub record BucketPlacement : Type 0 where
  pub states : List BucketState
  pub bucket_indices : ℕ → Option ℕ
  pub extent_grant_count : ℕ
  pub file_size : ℕ
  pub next_region : ℕ
  pub registry_end : ℕ

abbrev pub State : BlockIo → Type 0
State io = BucketPlacement × Files io

abbrev pub required_extent_size : HeapConfig → ℕ → ℕ
required_extent_size config total_len = max (page_up total_len) config.min_extent

-- `last()`, and a write through `last_mut()`.
module _ {ℓ} {A : Type ℓ} where
  abbrev pub last? : List A → Option A
  last? [] = none
  last? (x ∷ []) = some x
  last? (x ∷ y ∷ ys) = last? (y ∷ ys)

  abbrev pub set_last : List A → A → List A
  set_last [] v = []
  set_last (x ∷ []) v = v ∷ []
  set_last (x ∷ y ∷ ys) v = x ∷ set_last (y ∷ ys) v

-- The last extent of the bucket at an index; `none` where the program would panic.
abbrev pub last_extent : BucketPlacement → ℕ → Option Extent
last_extent placement index = elim (get_elem? placement.states index) [
  | none ↦ none
  | some state ↦ last? state.extents
]

abbrev pub last_region : BucketPlacement → ℕ → Option Extent
last_region placement index = elim (get_elem? placement.states index) [
  | none ↦ none
  | some state ↦ last? state.slots
]

-- A change of the state of the bucket at an index.
abbrev pub update_state : ℕ → (BucketState → BucketState) → BucketPlacement → BucketPlacement
update_state index change placement = elim (get_elem? placement.states index) [
  | none ↦ placement
  | some state ↦ record placement { states = set placement.states index (change state) }
]

abbrev pub set_last_extent : ℕ → Extent → BucketPlacement → BucketPlacement
set_last_extent index extent =
    update_state index (λ state. record state { extents = set_last state.extents extent })

abbrev pub push_extent : ℕ → Extent → BucketPlacement → BucketPlacement
push_extent index extent =
    update_state index (λ state. record state { extents = state.extents ++ extent ∷ [] })

abbrev pub set_last_region : ℕ → Extent → BucketPlacement → BucketPlacement
set_last_region index region =
    update_state index (λ state. record state { slots = set_last state.slots region })

abbrev pub push_region : ℕ → Extent → BucketPlacement → BucketPlacement
push_region index region =
    update_state index (λ state. record state { slots = state.slots ++ region ∷ [] })

abbrev pub used_extents : List Extent → ℕ
used_extents [] = 0
used_extents (extent ∷ extents) = add64 extent.used (used_extents extents)

abbrev pub used_states : List BucketState → ℕ
used_states [] = 0
used_states (state ∷ states) = add64 (used_extents state.extents) (used_states states)

abbrev pub used_bytes : BucketPlacement → ℕ
used_bytes placement = used_states placement.states
