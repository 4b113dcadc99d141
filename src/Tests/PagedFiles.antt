-- ===== src/Tests/PagedFiles.antt =====
-- The theorems on paged files, on a file with three staged bytes over the memory backend.
use uol_ms_project.Prelude.{◌+◌, ◌≡◌, refl, true, none, [], ◌∷◌, slice, arith}
use uol_ms_project.Prelude.Exec.{Returns, ◌>>◌}
use uol_ms_project.Format.Pages.{page_down_lem}
use uol_ms_project.Io.{read_cells}
use uol_ms_project.Data.{PagedFile}
use uol_ms_project.Data.View.{view, IsCoherent}
use uol_ms_project.Data.Flush.{flush}
use uol_ms_project.Data.Flush.Writes.{Flushed, flush_lem}
use uol_ms_project.Data.Files.{read_aligned, ensure_alloc}
use uol_ms_project.Data.Reads.{read_aligned_lem}
use uol_ms_project.Data.Stage.{stage}
use uol_ms_project.Data.Stage.Open.{IsStage}
use uol_ms_project.Data.Stage.Writes.{stage_lem}
use uol_ms_project.Records.{DataFile, record_header_of, stage_record, read_record}
use uol_ms_project.Records.Parse.{stored}
use uol_ms_project.Records.RoundTrip.{read_record-stage_record}
use uol_ms_project.Data.Allocation.{IsAllocated, ensure_alloc_lem}
use uol_ms_project.Placement.{Files, default_config}
use uol_ms_project.Placement.Append.{alloc}
use uol_ms_project.Placement.Append.Places.{IsPlaced, alloc_lem}
use uol_ms_project.Tests.Memory.{memory, memory-IsReliable, no_bytes}

abbrev pub three_bytes : PagedFile
three_bytes = record {
  file = no_bytes;
  tail_pages = λ k. none;
  pool = [];
  staged_writes =
      record {
        start = 0;
        buffer = record { content = 7 ∷ 8 ∷ 9 ∷ []; capacity = 4096 };
        head = none;
      }
      ∷ [];
  pending_bytes = 3;
  allocated_end = 0;
}

pub three_bytes-IsCoherent : IsCoherent three_bytes
three_bytes-IsCoherent = record {
  is_file = λ i h. refl;
  cache = record {
    aligned = λ k page e. ground (arith, e);
    cached = λ k page e. ground (arith, e);
  };
  staged = (
    record {
      start = omega arith;
      bound = omega (arith, page_down_lem 0 (omega arith));
      head = λ page e. ground (arith, e);
    },
    tt,
  );
  apart = (tt, tt);
}

flush_lem_example :
    Returns (λ _ after. Flushed three_bytes after.0) (flush memory (three_bytes, tt))
flush_lem_example = flush_lem memory memory-IsReliable three_bytes tt three_bytes-IsCoherent

read_aligned_lem_example :
    Returns
      (λ r after.
        (slice r.1 (r.1 + 2) r.0.content ≡ read_cells (view three_bytes) 1 2)
        × Flushed three_bytes after.0)
      (read_aligned memory 1 2 (three_bytes, tt))
read_aligned_lem_example =
    read_aligned_lem memory memory-IsReliable 1 2 three_bytes tt three_bytes-IsCoherent
      (omega arith)

stage_lem_example :
    Returns
      (λ _ after. IsStage 3 (1 ∷ 2 ∷ []) three_bytes after.0)
      (stage memory 3 ((1 ∷ []) ∷ (2 ∷ []) ∷ []) (three_bytes, tt))
stage_lem_example =
    stage_lem memory memory-IsReliable 3 ((1 ∷ []) ∷ (2 ∷ []) ∷ []) three_bytes tt
      three_bytes-IsCoherent (omega arith)

abbrev records : DataFile
records = record { paged_file = three_bytes; with_bucket = true; integrity = true }

read_record-stage_record_example :
    Returns
      (λ r _.
        (r.0 ≡ stored true (record_header_of true 2 11 1 (5 ∷ 6 ∷ []))) × (r.1 ≡ (5 ∷ 6 ∷ [])))
      ((stage_record memory 4096 2 11 1 (5 ∷ 6 ∷ []) >> read_record memory 4096 40 11)
        (records, tt))
read_record-stage_record_example =
    read_record-stage_record memory memory-IsReliable 4096 2 11 1 (5 ∷ 6 ∷ []) records tt
      three_bytes-IsCoherent (omega arith) (omega arith) (omega arith) (omega arith) (omega arith)

ensure_alloc_lem_example :
    Returns
      (λ _ after. IsAllocated 5000 10000 three_bytes after.0)
      (ensure_alloc memory 5000 10000 (three_bytes, tt))
ensure_alloc_lem_example =
    ensure_alloc_lem memory memory-IsReliable 5000 10000 three_bytes tt three_bytes-IsCoherent
      (omega arith) (omega arith)

abbrev files : Files memory
files = record { data_file = records; registry = none; io_state = tt }

alloc_lem_example :
    Returns
      (λ r after.
        IsPlaced 40 default_config.growth
          (record { cursor = 4096; next_id = 0 })
          three_bytes
          r
          after.0
          after.1.data_file.paged_file)
      (alloc memory default_config 0 40 (record { cursor = 4096; next_id = 0 }, files))
alloc_lem_example =
    alloc_lem memory memory-IsReliable default_config 0 40 (record { cursor = 4096; next_id = 0 })
      files three_bytes-IsCoherent (omega arith) (omega arith) (omega arith)
