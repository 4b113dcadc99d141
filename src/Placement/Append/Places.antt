-- ===== src/Placement/Append/Places.antt =====
-- What `AppendPlacement::alloc` gives to a record.
use uol_ms_project.Prelude.{ℕ, ◌+◌, ◌^◌, ◌≤◌, ◌<◌, ◌≡◌, refl, ap, subst, ◌∙◌, add64, arith}
use uol_ms_project.Prelude.Exec.{Returns-weaken, Returns, returns, Returns-bind}
use uol_ms_project.Format.{page_size}
use uol_ms_project.Io.{BlockIo, IsReliable}
use uol_ms_project.Data.{PagedFile}
use uol_ms_project.Data.View.{limit, IsCoherent}
use uol_ms_project.Data.Allocation.{IsAllocated, ensure_alloc_lem}
use uol_ms_project.Placement.{HeapConfig, Files}
use uol_ms_project.Placement.Append.{alloc_update, AppendPlacement, ensure_data, alloc}

-- A record of `total_len` bytes got the space behind the records before it, and a new number.
pub record IsPlaced (total_len growth : ℕ) (placement : AppendPlacement) (paged : PagedFile)
    (r : ℕ × ℕ) (after : AppendPlacement) (paged_after : PagedFile) : Type 0 where
  pub place : r ≡ (placement.cursor, placement.next_id)
  pub next_place : after.cursor ≡ r.0 + total_len
  pub next_number : after.next_id ≡ r.1 + 1
  pub allocated : IsAllocated (r.0 + total_len) growth paged paged_after

-- Only the paged file of the data file and the backend changed.
abbrev pub SameFiles : (io : BlockIo) → Files io → Files io → Type 0
SameFiles io files after = after ≡ record files {
  data_file = record files.data_file { paged_file = after.data_file.paged_file };
  io_state = after.io_state;
}

module _ (io : BlockIo) (reliable : IsReliable io) where
  ensure_data_lem :
      (upto growth : ℕ) (placement : AppendPlacement) (files : Files io)
      → IsCoherent files.data_file.paged_file
      → upto + page_size ≤ limit
      → files.data_file.paged_file.allocated_end + growth + page_size ≤ limit
      → Returns
          (λ _ after.
            (after.0 ≡ placement)
            × IsAllocated upto growth files.data_file.paged_file after.1.data_file.paged_file
            × SameFiles io files after.1)
          (ensure_data io upto growth (placement, files))
  ensure_data_lem upto growth placement files h small room =
      let done =
        ensure_alloc_lem io reliable upto growth files.data_file.paged_file files.io_state h small
          room in
      record {
        value = tt;
        state = (
          placement,
          record files {
            data_file = record files.data_file { paged_file = done.state.0 };
            io_state = done.state.1;
          },
        );
        outcome =
            ap
              (λ r. (
                r.0,
                (
                  placement,
                  record files {
                    data_file = record files.data_file { paged_file = r.1.0 };
                    io_state = r.1.1;
                  },
                ),
              ))
              done.outcome;
        post = (refl, done.post, refl);
      }

  -- With what an allocation leaves alone.
  pub place_lem :
      (config : HeapConfig) (bucket total_len : ℕ) (placement : AppendPlacement) (files : Files io)
      → IsCoherent files.data_file.paged_file
      → placement.cursor + total_len + page_size ≤ limit
      → files.data_file.paged_file.allocated_end + config.growth + page_size ≤ limit
      → placement.next_id + 1 < 2 ^ 64
      → Returns
          (λ r after.
            IsPlaced total_len config.growth placement files.data_file.paged_file r after.0
              after.1.data_file.paged_file
            × SameFiles io files after.1)
          (alloc io config bucket total_len (placement, files))
  unfolding alloc
  place_lem config bucket total_len placement files h small room ids =
      let end : add64 placement.cursor total_len ≡ placement.cursor + total_len = omega arith in
      Returns-bind (ensure_data io (add64 placement.cursor total_len) config.growth) _
        (ensure_data_lem (add64 placement.cursor total_len) config.growth placement files h
          (omega arith) room)
        (λ u after (same, grown, frame). returns _ _ (
          record {
            place = ap (λ (q : AppendPlacement). (placement.cursor, q.next_id)) same;
            next_place = ap (λ (q : AppendPlacement). add64 q.cursor total_len) same ∙ end;
            next_number = omega (arith, ap (λ (q : AppendPlacement). q.next_id) same, ids);
            allocated =
                subst
                  (λ e.
                    IsAllocated e config.growth files.data_file.paged_file
                      after.1.data_file.paged_file)
                  end grown;
          },
          frame,
        ))

  -- An allocation succeeds on a coherent data file, over a reliable backend, where its end and the
  -- grown file stay a page below 2 ^ 63 and the numbers below 2 ^ 64. The record gets the space at
  -- the cursor and the next number; the cursor then stands at the end of the record, and the next
  -- number is one more. If the allocated end of the data file had not reached the end of the record,
  -- a file that is shorter than the new allocated end, which has, is made that long; the data file
  -- stays coherent, and stands for the same bytes as before.
  pub alloc_lem :
      (config : HeapConfig) (bucket total_len : ℕ) (placement : AppendPlacement) (files : Files io)
      → IsCoherent files.data_file.paged_file
      → placement.cursor + total_len + page_size ≤ limit
      → files.data_file.paged_file.allocated_end + config.growth + page_size ≤ limit
      → placement.next_id + 1 < 2 ^ 64
      → Returns
          (λ r after.
            IsPlaced total_len config.growth placement files.data_file.paged_file r after.0
              after.1.data_file.paged_file)
          (alloc io config bucket total_len (placement, files))
  alloc_lem config bucket total_len placement files h small room ids =
      Returns-weaken _ (place_lem config bucket total_len placement files h small room ids)
        (λ r after e. e.0)

  -- An update gets its space in the same way, and no number.
  pub alloc_update_lem :
      (config : HeapConfig) (bucket total_len : ℕ) (placement : AppendPlacement) (files : Files io)
      → IsCoherent files.data_file.paged_file
      → placement.cursor + total_len + page_size ≤ limit
      → files.data_file.paged_file.allocated_end + config.growth + page_size ≤ limit
      → Returns
          (λ off after.
            (off ≡ placement.cursor)
            × (after.0 ≡ record placement { cursor = placement.cursor + total_len })
            × IsAllocated
                (placement.cursor + total_len)
                config.growth
                files.data_file.paged_file
                after.1.data_file.paged_file
            × SameFiles io files after.1)
          (alloc_update io config bucket total_len (placement, files))
  unfolding alloc_update
  alloc_update_lem config bucket total_len placement files h small room =
      let end : add64 placement.cursor total_len ≡ placement.cursor + total_len = omega arith in
      Returns-bind (ensure_data io (add64 placement.cursor total_len) config.growth) _
        (ensure_data_lem (add64 placement.cursor total_len) config.growth placement files h
          (omega arith) room)
        (λ u after (same, grown, frame). returns _ _ (
          refl,
          ap (λ (q : AppendPlacement). record q { cursor = add64 q.cursor total_len }) same
              ∙ ap (λ (c : ℕ). record placement { cursor = c }) end,
          subst
              (λ e.
                IsAllocated e config.growth files.data_file.paged_file after.1.data_file.paged_file)
              end grown,
          frame,
        ))
