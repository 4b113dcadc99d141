-- ===== src/Placement/Bucket/Grant.antt =====
-- `push_row`, `grant_extent` and `grant_region` of src/bucket.rs. The loop of `grant_extent` takes
-- fuel, and is `stuck` where the fuel runs out.
use uol_ms_project.Prelude.{
  ℕ, zero, suc, ◌+◌, ◌-◌, ◌*◌, ◌/◌, ◌^◌, max, Bool, Option, none, some, [], ◌∷◌, length, get_elem?,
  replicate, ◌==◌, leb, if◌then◌else◌, add64, sub64,
}
use uol_ms_project.Prelude.Exec.{Exec, pure, raise, gets, modify, ◌>>=◌, ◌>>◌}
use uol_ms_project.Error.{ok, err, panic, stuck}
use uol_ms_project.Format.{page_size, page_down, page_up, registry_row_size}
use uol_ms_project.Format.RegistryRow
use uol_ms_project.Format.RegistryRow.{RegistryRow}
use uol_ms_project.Io.{BlockIo}
use uol_ms_project.Data.{PagedFile}
use uol_ms_project.Data.Files.{ensure_alloc}
use uol_ms_project.Data.Stage.{stage}
use uol_ms_project.Records.{DataFile, on_paged}
use uol_ms_project.Placement.{HeapConfig}
use uol_ms_project.Placement.Bucket.{
  Extent, BucketPlacement, State, last_extent, set_last_extent, push_extent, push_region,
}

-- The number of binary digits; 64 is enough for a `u64`.
unfoldable pub bit_length : ℕ → ℕ → ℕ
bit_length zero n = 0
bit_length (suc fuel) n = let more = bit_length fuel (n / 2) in if n == 0 then 0 else more + 1

-- `1u64 << (63 - grant_number.leading_zeros())`
unfoldable pub section_base : ℕ → ℕ
unfolding bit_length
section_base grant_number = 2 ^ (bit_length 64 grant_number - 1)

-- What the loop decides about a victim's last extent: the extent that is cut off its end, or nothing
-- if the room behind its used pages is too small.
unfoldable pub cut_of : ℕ → Extent → ℕ
cut_of need victim = let free = victim.size - page_up victim.used in max (page_down (free / 2)) need

abbrev pub has_room : ℕ → Extent → Bool
has_room need victim = leb need (victim.size - page_up victim.used)

module _ (io : BlockIo) where
  abbrev pub on_data : {A : Type 0} → Exec (DataFile × BlockIo.Io io) A → Exec (State io) A
  on_data method s =
      let r = method (s.1.data_file, s.1.io_state) in
      (r.0, (s.0, record s.1 { data_file = r.1.0; io_state = r.1.1 }))

  -- `registry.expect("bucket layout requires registry")`
  abbrev pub on_registry : {A : Type 0} → Exec (PagedFile × BlockIo.Io io) A → Exec (State io) A
  on_registry method s = elim s.1.registry [
    | none ↦ (err panic, s)
    | some paged ↦
        let r = method (paged, s.1.io_state) in
        (r.0, (s.0, record s.1 { registry = some r.1.0; io_state = r.1.1 }))
  ]

  unfoldable pub push_row : RegistryRow → Exec (State io) (Unit {0})
  push_row row = do
    registry_end ← gets (λ s. s.0.registry_end)
    on_registry
        (stage io registry_end (RegistryRow.encode row (replicate registry_row_size 0) ∷ []))
    modify (λ s. (record s.0 { registry_end = add64 s.0.registry_end registry_row_size }, s.1))

  -- The branch that takes an extent behind the end of the file.
  unfoldable pub grow_file : HeapConfig → ℕ → Exec (State io) Extent
  grow_file config need = do
    let grow = max need config.growth
    file_size ← gets (λ s. s.0.file_size)
    on_data (on_paged io (ensure_alloc io (add64 file_size grow) grow))
    modify (λ s. (record s.0 { file_size = add64 s.0.file_size grow }, s.1))
    pure (record { start = file_size; size = grow; used = 0 })

  -- The branch that splits a victim, and `next`, the rest of the loop.
  unfoldable pub split_victim :
      ℕ → ℕ → Exec (State io) Extent → Option Extent → Exec (State io) Extent
  split_victim need index next none = raise panic
  split_victim need index next (some victim) =
      let cut = cut_of need victim in
      let left = sub64 victim.size cut in
      if has_room need victim
      then (do
        modify (λ s. (set_last_extent index (record victim { size = left }) s.0, s.1))
        pure (record { start = add64 victim.start left; size = cut; used = 0 }))
      else next

  -- The loop that looks for the extent.
  unfoldable pub find_extent : ℕ → HeapConfig → ℕ → Exec (State io) Extent
  unfolding grow_file split_victim
  find_extent zero config need = raise stuck
  find_extent (suc fuel) config need = do
    grant_number ← gets (λ s. s.0.extent_grant_count)
    modify (λ s. (record s.0 { extent_grant_count = add64 s.0.extent_grant_count 1 }, s.1))
    file_size ← gets (λ s. s.0.file_size)
    count ← gets (λ s. length s.0.states)
    let victim_index = sub64 grant_number (section_base grant_number)
    victim ← gets (λ s. last_extent s.0 victim_index)
    let next = find_extent fuel config need
    if grant_number == 0
        then pure (record { start = page_size; size = sub64 file_size page_size; used = 0 })
        else if leb count victim_index
        then grow_file config need
        else split_victim need victim_index next victim

  -- The fuel of a search: three attempts for each bucket, and four.
  abbrev pub grant_fuel : BucketPlacement → ℕ
  grant_fuel placement = 3 * length placement.states + 4

  -- `states[index].id`, or a panic.
  abbrev pub bucket_id : ℕ → Exec (State io) ℕ
  bucket_id index s = elim (get_elem? s.0.states index) [
    | none ↦ (err panic, s)
    | some state ↦ (ok state.id, s)
  ]

  unfoldable pub grant_extent : HeapConfig → ℕ → ℕ → Exec (State io) (Unit {0})
  unfolding find_extent push_row
  grant_extent config index need = do
    fuel ← gets (λ s. grant_fuel s.0)
    extent ← find_extent fuel config need
    bucket ← bucket_id index
    push_row (record { kind = b'D'; bucket = bucket; start = extent.start; size = extent.size })
    modify (λ s. (push_extent index extent s.0, s.1))

  unfoldable pub grant_region : HeapConfig → ℕ → Exec (State io) (Unit {0})
  unfolding push_row
  grant_region config index = do
    start ← gets (λ s. s.0.next_region)
    modify (λ s. (record s.0 { next_region = add64 s.0.next_region config.region_slots }, s.1))
    bucket ← bucket_id index
    push_row (record { kind = b'S'; bucket = bucket; start = start; size = config.region_slots })
    modify (λ s. (
      push_region index (record { start = start; size = config.region_slots; used = 0 }) s.0,
      s.1,
    ))
