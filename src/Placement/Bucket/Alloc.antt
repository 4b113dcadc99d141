-- ===== src/Placement/Bucket/Alloc.antt =====
-- `bucket_index`, `place_bytes`, `alloc` and `alloc_update` of src/bucket.rs.
use uol_ms_project.Prelude.{
  ℕ, true, Option, none, some, [], ◌∷◌, ◌++◌, length, ◌==◌, leb, ltb, if◌then◌else◌, add64,
}
use uol_ms_project.Prelude.Exec.{Exec, pure, raise, gets, modify, ◌>>=◌, ◌>>◌}
use uol_ms_project.Error.{panic, invalid_arg, unknown_bucket}
use uol_ms_project.Format.{layout_bucket}
use uol_ms_project.Io.{BlockIo}
use uol_ms_project.Placement.{HeapConfig, Placement}
use uol_ms_project.Placement.Bucket.{
  Extent, BucketPlacement, State, required_extent_size, last_extent, last_region, set_last_extent,
  set_last_region, used_bytes,
}
use uol_ms_project.Placement.Bucket.Grant.{grant_extent, grant_region}

abbrev pub new_bucket : ℕ → BucketPlacement → BucketPlacement
new_bucket bucket placement = record placement {
  states = placement.states ++ record { id = bucket; extents = []; slots = [] } ∷ [];
  bucket_indices =
      λ k. if k == bucket then some (length placement.states) else placement.bucket_indices k;
}

module _ (io : BlockIo) where
  unfoldable pub index_or_new : HeapConfig → ℕ → ℕ → Option ℕ → Exec (State io) ℕ
  index_or_new config bucket need (some index) = pure index
  index_or_new config bucket need none = do
    index ← gets (λ s. length s.0.states)
    modify (λ s. (new_bucket bucket s.0, s.1))
    grant_extent io config index need
    grant_region io config index
    pure index

  unfoldable pub bucket_index : HeapConfig → ℕ → ℕ → Exec (State io) ℕ
  unfolding index_or_new
  bucket_index config bucket need = do
    known ← gets (λ s. s.0.bucket_indices bucket)
    index_or_new config bucket need known

  -- A fresh extent takes the record at its start.
  unfoldable pub place_first : ℕ → ℕ → Option Extent → Exec (State io) ℕ
  place_first index total_len none = raise panic
  place_first index total_len (some extent) = do
    modify (λ s. (set_last_extent index (record extent { used = total_len }) s.0, s.1))
    pure extent.start

  unfoldable pub place_in : HeapConfig → ℕ → ℕ → Option Extent → Exec (State io) ℕ
  unfolding place_first
  place_in config index total_len none = raise panic
  place_in config index total_len (some extent) =
      if leb (add64 extent.used total_len) extent.size
      then (do
        modify (λ s.
            (set_last_extent index (record extent { used = add64 extent.used total_len }) s.0, s.1))
        pure (add64 extent.start extent.used))
      else (do
        grant_extent io config index (required_extent_size config total_len)
        granted ← gets (λ s. last_extent s.0 index)
        place_first index total_len granted)

  unfoldable pub place_bytes : HeapConfig → ℕ → ℕ → Exec (State io) ℕ
  unfolding place_in
  place_bytes config index total_len = do
    extent ← gets (λ s. last_extent s.0 index)
    place_in config index total_len extent

  -- The first number of a fresh region.
  unfoldable pub first_id : ℕ → Option Extent → Exec (State io) ℕ
  first_id index none = raise panic
  first_id index (some region) = do
    modify (λ s. (set_last_region index (record region { used = 1 }) s.0, s.1))
    pure region.start

  unfoldable pub id_in : HeapConfig → ℕ → Option Extent → Exec (State io) ℕ
  unfolding first_id
  id_in config index none = raise panic
  id_in config index (some region) =
      if ltb region.used region.size
      then (do
        modify
            (λ s. (set_last_region index (record region { used = add64 region.used 1 }) s.0, s.1))
        pure (add64 region.start region.used))
      else (do
        grant_region io config index
        granted ← gets (λ s. last_region s.0 index)
        first_id index granted)

  -- `registry.expect("bucket layout requires registry")`
  unfoldable pub require_registry : Exec (State io) (Unit {0})
  require_registry s = elim s.1.registry [ none ↦ raise panic s | some paged ↦ pure tt s ]

  unfoldable pub alloc : HeapConfig → ℕ → ℕ → Exec (State io) (ℕ × ℕ)
  unfolding require_registry bucket_index place_bytes id_in
  alloc config bucket total_len = do
    require_registry
    index ← bucket_index config bucket (required_extent_size config total_len)
    offset ← place_bytes config index total_len
    region ← gets (λ s. last_region s.0 index)
    id ← id_in config index region
    pure (offset, id)

  unfoldable pub place_known : HeapConfig → ℕ → Option ℕ → Exec (State io) ℕ
  unfolding place_bytes
  place_known config total_len none = raise (invalid_arg unknown_bucket)
  place_known config total_len (some index) = place_bytes config index total_len

  unfoldable pub alloc_update : HeapConfig → ℕ → ℕ → Exec (State io) ℕ
  unfolding require_registry place_known
  alloc_update config bucket total_len = do
    require_registry
    known ← gets (λ s. s.0.bucket_indices bucket)
    place_known config total_len known

  abbrev pub bucket_placement : Placement io
  bucket_placement = record {
    P = BucketPlacement;
    with_bucket = true;
    layout = layout_bucket;
    alloc = alloc;
    alloc_update = alloc_update;
    used_bytes = used_bytes;
  }
