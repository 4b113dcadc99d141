-- ===== src/Recovery.antt =====
-- src/recovery.rs: what `rebuild` keeps of the records that its walk over the data file visits.
pub mod Newest
pub mod Index
use uol_ms_project.Prelude.{
  ℕ, ◌+◌, Bool, true, false, ◌&&◌, Option, none, some, List, [], ◌∷◌, ◌==◌, leb, if◌then◌else◌,
  add64,
}
use uol_ms_project.Format.RecordHeader.{RecordHeader, header_len}

-- A call of the visitor by `walk`.
pub record Visit : Type 0 where
  pub offset : ℕ
  pub header : RecordHeader
  pub payload_valid : Bool

-- An entry of `latest_records`.
pub record Latest : Type 0 where
  pub offset : ℕ
  pub record_len : ℕ
  pub version : ℕ
  pub bucket : ℕ

-- An entry of `bucket_runs`.
pub record BucketRun : Type 0 where
  pub bucket : ℕ
  pub start : ℕ
  pub run_end : ℕ

-- What the visitor changes. `latest_records` is a hash map, and `bucket_runs` has its last run first.
pub record Rebuild : Type 0 where
  pub latest_records : ℕ → Option Latest
  pub bucket_runs : List BucketRun

abbrev pub nothing_found : Rebuild
nothing_found = record { latest_records = λ id. none; bucket_runs = [] }

-- The entry of a visited record.
abbrev pub latest_of : Bool → Visit → Latest
latest_of with_bucket v = record {
  offset = v.offset;
  record_len = add64 (header_len with_bucket) v.header.len;
  version = v.header.version;
  bucket = v.header.bucket;
}

-- The last run is made longer if the record lies behind it and is of its bucket.
abbrev pub extend_run : ℕ → ℕ → ℕ → List BucketRun → List BucketRun
extend_run bucket offset run_end [] =
    record { bucket = bucket; start = offset; run_end = run_end } ∷ []
extend_run bucket offset run_end (run ∷ rest) =
    if run.bucket == bucket && run.run_end == offset
    then record run { run_end = run_end } ∷ rest
    else record { bucket = bucket; start = offset; run_end = run_end } ∷ run ∷ rest

-- `entry(header.id).or_insert(..)`, and the test of the versions.
abbrev pub newer : Latest → Option Latest → Latest
newer entry none = entry
newer entry (some earlier) = if leb earlier.version entry.version then entry else earlier

unfoldable pub visit : Bool → Visit → Rebuild → Rebuild
visit with_bucket v s =
    let entry = latest_of with_bucket v in
    if v.payload_valid
    then record {
      latest_records = λ k.
          if k == v.header.id
          then some (newer entry (s.latest_records v.header.id))
          else s.latest_records k;
      bucket_runs =
          extend_run v.header.bucket v.offset (add64 v.offset entry.record_len) s.bucket_runs;
    }
    else s

unfoldable pub visit_all : Bool → List Visit → Rebuild → Rebuild
unfolding visit
visit_all with_bucket [] s = s
visit_all with_bucket (v ∷ vs) s = visit_all with_bucket vs (visit with_bucket v s)
