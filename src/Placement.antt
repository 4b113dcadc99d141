-- ===== src/Placement.antt =====
-- src/placement.rs: what a heap asks of a placement policy, and the configuration of a heap
-- (`HeapConfig` of src/heap.rs).
pub mod Append
pub mod Bucket
use uol_ms_project.Prelude.{ℕ, ◌*◌, ◌^◌, Bool, true, Option}
use uol_ms_project.Prelude.Exec.{Exec}
use uol_ms_project.Io.{BlockIo}
use uol_ms_project.Data.{PagedFile}
use uol_ms_project.Records.{DataFile}

pub data SyncPolicy : Type 0 where
  never : SyncPolicy
  every_n : ℕ → SyncPolicy

pub record HeapConfig : Type 0 where
  pub sync_policy : SyncPolicy
  pub integrity : Bool
  pub initial_size : ℕ
  pub growth : ℕ
  pub min_extent : ℕ
  pub region_slots : ℕ
  pub pending_limit : ℕ

abbrev pub default_config : HeapConfig
default_config = record {
  sync_policy = never;
  integrity = true;
  initial_size = 64 * 2 ^ 20;
  growth = 64 * 2 ^ 20;
  min_extent = 2 ^ 20;
  region_slots = 4096;
  pending_limit = 8 * 2 ^ 20;
}

-- What `alloc` can change besides the policy itself: the data file, the registry file of a bucket
-- layout, and the I/O backend.
pub record Files (io : BlockIo) : Type 0 where
  pub data_file : DataFile
  pub registry : Option PagedFile
  pub io_state : BlockIo.Io io

pub record Placement (io : BlockIo) : Type 1 where
  pub P : Type 0
  pub with_bucket : Bool
  pub layout : ℕ
  pub alloc : HeapConfig → ℕ → ℕ → Exec (P × Files io) (ℕ × ℕ)
  pub alloc_update : HeapConfig → ℕ → ℕ → Exec (P × Files io) ℕ
  pub used_bytes : P → ℕ
