-- ===== src/Placement/Append.antt =====
-- src/append.rs: records are placed one behind the other, in the order of their allocation.
pub mod Places
use uol_ms_project.Prelude.{ℕ, false, add64, sub64}
use uol_ms_project.Prelude.Exec.{Exec, pure, gets, modify, ◌>>=◌, ◌>>◌}
use uol_ms_project.Format.{page_size, layout_append}
use uol_ms_project.Io.{BlockIo}
use uol_ms_project.Data.Files.{ensure_alloc}
use uol_ms_project.Records.{on_paged}
use uol_ms_project.Placement.{HeapConfig, Files, Placement}

pub record AppendPlacement : Type 0 where
  pub cursor : ℕ
  pub next_id : ℕ

-- The result of `open` on a file that was just created.
abbrev pub created : AppendPlacement
created = record { cursor = page_size; next_id = 0 }

abbrev pub used_bytes : AppendPlacement → ℕ
used_bytes placement = sub64 placement.cursor page_size

module _ (io : BlockIo) where
  -- `data.paged_file.ensure_alloc(upto, growth)`
  abbrev pub ensure_data : ℕ → ℕ → Exec (AppendPlacement × Files io) (Unit {0})
  ensure_data upto growth s =
      let r = on_paged io (ensure_alloc io upto growth) (s.1.data_file, s.1.io_state) in
      (r.0, (s.0, record s.1 { data_file = r.1.0; io_state = r.1.1 }))

  unfoldable pub alloc_update : HeapConfig → ℕ → ℕ → Exec (AppendPlacement × Files io) ℕ
  alloc_update config bucket total_len = do
    offset ← gets (λ s. s.0.cursor)
    ensure_data (add64 offset total_len) config.growth
    modify (λ s. (record s.0 { cursor = add64 s.0.cursor total_len }, s.1))
    pure offset

  unfoldable pub alloc : HeapConfig → ℕ → ℕ → Exec (AppendPlacement × Files io) (ℕ × ℕ)
  alloc config bucket total_len = do
    offset ← gets (λ s. s.0.cursor)
    ensure_data (add64 offset total_len) config.growth
    modify (λ s. (record s.0 { cursor = add64 s.0.cursor total_len }, s.1))
    id ← gets (λ s. s.0.next_id)
    modify (λ s. (record s.0 { next_id = add64 s.0.next_id 1 }, s.1))
    pure (offset, id)

  abbrev pub append_placement : Placement io
  append_placement = record {
    P = AppendPlacement;
    with_bucket = false;
    layout = layout_append;
    alloc = alloc;
    alloc_update = alloc_update;
    used_bytes = used_bytes;
  }
