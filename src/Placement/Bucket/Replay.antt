-- ===== src/Placement/Bucket/Replay.antt =====
-- The loop of `BucketPlacement::open` over the registry: the grants are replayed in their order.
use uol_ms_project.Prelude.{
  ℕ, zero, suc, max, Bool, true, ◌&&◌, Option, none, some, List, [], ◌∷◌, length, take, drop, ◌==◌,
  leb, if◌then◌else◌, add64, sub64,
}
use uol_ms_project.Error.{Result, ok, err, corrupt, registry_row, registry_row_kind}
use uol_ms_project.Bytes.{Bytes}
use uol_ms_project.Format.{page_size, registry_row_size}
use uol_ms_project.Format.RegistryRow
use uol_ms_project.Format.RegistryRow.{RegistryRow}
use uol_ms_project.Placement.{HeapConfig}
use uol_ms_project.Placement.Bucket.{
  Extent, end_of, BucketState, BucketPlacement, push_extent, push_region,
}
use uol_ms_project.Placement.Bucket.Alloc.{new_bucket}

-- The placement before the replay, and that of a heap that was just created.
abbrev pub initial : HeapConfig → BucketPlacement
initial config = record {
  states = [];
  bucket_indices = λ k. none;
  extent_grant_count = 0;
  file_size = config.initial_size;
  next_region = 0;
  registry_end = page_size;
}

-- The row lies in the extent.
abbrev pub holds : RegistryRow → Extent → Bool
holds row extent = leb extent.start row.start && leb (add64 row.start row.size) (end_of extent)

abbrev pub shrunk : RegistryRow → Extent → Extent
shrunk row extent = record extent { size = sub64 row.start extent.start }

-- The search for the extent from which a row was split: the first that holds it ends where the row
-- begins. `none` means that no extent holds it.
pub shrink_extents : RegistryRow → List Extent → Option (List Extent)
shrink_extents row [] = none
shrink_extents row (extent ∷ extents) =
    let rest = shrink_extents row extents in
    if holds row extent
    then some (shrunk row extent ∷ extents)
    else elim rest [ none ↦ none | some changed ↦ some (extent ∷ changed) ]

pub shrink_states : RegistryRow → List BucketState → List BucketState
unfolding shrink_extents
shrink_states row [] = []
shrink_states row (state ∷ states) =
    let rest = shrink_states row states in
    elim (shrink_extents row state.extents) [
      | none ↦ state ∷ rest
      | some changed ↦ record state { extents = changed } ∷ states
    ]

-- The index of the bucket of a row, which the row may be the first to name.
pub row_bucket : ℕ → BucketPlacement → Option ℕ → ℕ × BucketPlacement
row_bucket bucket placement (some index) = (index, placement)
row_bucket bucket placement none = (length placement.states, new_bucket bucket placement)

-- A row with its kind decided.
pub replay_grant : RegistryRow → ℕ → BucketPlacement → Result BucketPlacement
unfolding shrink_states
replay_grant row index placement =
    let granted : Extent = record { start = row.start; size = row.size; used = 0 } in
    if row.kind == b'D'
    then ok (
        push_extent index granted (record placement {
          states = shrink_states row placement.states;
          file_size = max placement.file_size (add64 row.start row.size);
        }))
    else if row.kind == b'S'
    then ok (
        push_region index granted
          (record placement { next_region = max placement.next_region (add64 row.start row.size) }))
    else err (corrupt registry_row_kind placement.registry_end)

unfoldable pub replay_row : RegistryRow → BucketPlacement → Result BucketPlacement
unfolding row_bucket replay_grant
replay_row row placement =
    let found = row_bucket row.bucket placement (placement.bucket_indices row.bucket) in
    replay_grant row found.0 (record found.1 {
      extent_grant_count = add64 placement.extent_grant_count 1;
      registry_end = add64 placement.registry_end registry_row_size;
    })

abbrev pub all_zero : Bytes → Bool
all_zero [] = true
all_zero (b ∷ bs) = b == 0 && all_zero bs

-- The loop over the chunks; the count is the number of whole chunks. A chunk of zeros ends the
-- registry, and any other chunk that is no row is an error.
unfoldable pub replay_chunks : ℕ → Bytes → BucketPlacement → Result BucketPlacement
unfolding replay_row
replay_chunks zero bytes placement = ok placement
replay_chunks (suc n) bytes placement =
    let chunk = take registry_row_size bytes in
    elim (RegistryRow.decode chunk) [
      | none ↦
          if all_zero chunk then ok placement else err (corrupt registry_row placement.registry_end)
      | some row ↦ elim (replay_row row placement) [
        | ok replayed ↦ replay_chunks n (drop registry_row_size bytes) replayed
        | err e ↦ err e
      ]
    ]
