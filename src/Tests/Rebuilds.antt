-- ===== src/Tests/Rebuilds.antt =====
-- The theorems on the rebuild of an index.
use uol_ms_project.Prelude.{
  some, ◌==◌, Option, Bool, ℕ, false, ◌≡◌, true, none, List, [], ◌∷◌, if◌then◌else◌, arith,
}
use uol_ms_project.Recovery.{visit, visit_all, Visit, latest_of}
use uol_ms_project.Recovery.{Latest}
use uol_ms_project.Tests.Memory.{memory-IsReliable, memory}
use uol_ms_project.Tests.Heaps.{empty_file-IsCoherent, empty_file}
use uol_ms_project.Prelude.Exec.{Returns}
use uol_ms_project.Recovery.Newest.{rebuild-Keeps, IsNewest}
use uol_ms_project.Data.View.{view, IsCoherent}
use uol_ms_project.Index.Slots.{entry}
use uol_ms_project.Recovery.Index.{write_index}
use uol_ms_project.Recovery.Index.Writes.{write_index_lem}
use uol_ms_project.Recovery.Index.Writes.{written}

-- A record in two versions, a record of another bucket, and a damaged record.
abbrev record_at : ℕ → ℕ → ℕ → ℕ → Bool → Visit
record_at offset bucket id version valid = record {
  offset = offset;
  header = record { len = 2; bucket = bucket; id = id; version = version; crc = 0 };
  payload_valid = valid;
}

abbrev visits : List Visit
visits =
    record_at 4096 5 0 1 true
    ∷ record_at 4136 5 1 1 true
    ∷ record_at 4176 6 0 2 true
    ∷ record_at 4216 6 0 3 false
    ∷ []

rebuild-Keeps_example : IsNewest true visits 0 (latest_of true (record_at 4176 6 0 2 true))
unfolding visit_all visit
rebuild-Keeps_example = rebuild-Keeps true visits 0

abbrev two_records : ℕ → Option Latest
two_records id =
    if id == 0
    then some (latest_of true (record_at 4176 6 0 2 true))
    else if id == 1
    then some (latest_of true (record_at 4136 5 1 1 true))
    else none

write_index_lem_example :
    Returns
      (λ _ after.
        IsCoherent after.0
        × (after.0.staged_writes ≡ [])
        × ((k : ℕ)
            → entry after.0.file.cell k
              ≡ written two_records (0 ∷ 1 ∷ []) (entry (view empty_file)) k))
      (write_index memory two_records (0 ∷ 1 ∷ []) (empty_file, tt))
write_index_lem_example =
    write_index_lem memory memory-IsReliable two_records (0 ∷ 1 ∷ []) empty_file tt
      empty_file-IsCoherent
      ((omega arith, λ e. ground (arith, e)), ((omega arith, λ e. ground (arith, e)), tt))
