-- ===== src/Records/Batch.antt =====
-- `DataFile::read_many` of src/data.rs: records in the order of their offsets, with one request
-- for each run of pages.
use uol_ms_project.Prelude.{
  ℕ, ◌+◌, max, Bool, List, [], ◌∷◌, ◌++◌, map, length, replicate, set, leb, ltb, if◌then◌else◌,
  add64, sub64,
}
use uol_ms_project.Prelude.Exec.{Exec, pure, gets, modify, lift, ◌>>=◌, ◌>>◌}
use uol_ms_project.Error.{Result, ok, err}
use uol_ms_project.Bytes.{Bytes}
use uol_ms_project.Format.{page_down, page_up}
use uol_ms_project.Io.{BlockIo, ReadReq}
use uol_ms_project.Io.AlignedBuf.{AlignedBuf}
use uol_ms_project.Data.{PagedFile}
use uol_ms_project.Data.Access.{on_io, recycle, take_sized}
use uol_ms_project.Data.Flush.{flush}
use uol_ms_project.Records.{DataFile, parse, on_paged}

-- A record to read, with its place in the request and so in `out`.
pub record Item : Type 0 where
  pub index : ℕ
  pub offset : ℕ
  pub length : ℕ
  pub id : ℕ

abbrev pub numbered : ℕ → List (ℕ × ℕ × ℕ) → List Item
numbered n [] = []
numbered n ((offset, len, id) ∷ items) =
    record { index = n; offset = offset; length = len; id = id } ∷ numbered (n + 1) items

-- `sort_by_key` by the offset, which keeps the order of equal keys.
pub insert_by_offset : Item → List Item → List Item
insert_by_offset item [] = item ∷ []
insert_by_offset item (other ∷ items) =
    if ltb other.offset item.offset
    then other ∷ insert_by_offset item items
    else item ∷ other ∷ items

pub sort_by_offset : List Item → List Item
sort_by_offset [] = []
sort_by_offset (item ∷ items) = insert_by_offset item (sort_by_offset items)

-- A run of pages, and the records in it.
pub record Group : Type 0 where
  pub start : ℕ
  pub stop : ℕ
  pub members : List Item

-- The loop over the sorted records; `group` is the last group so far.
pub group_items : Group → List Item → List Group
group_items group [] = group ∷ []
group_items group (item ∷ items) =
    let from = page_down item.offset in
    let to = page_up (add64 item.offset item.length) in
    let joined =
      group_items (record group { stop = max group.stop to; members = group.members ++ item ∷ [] })
        items in
    let opened = group_items (record { start = from; stop = to; members = item ∷ [] }) items in
    if leb from group.stop then joined else group ∷ opened

pub groups_of : List Item → List Group
unfolding group_items
groups_of [] = []
groups_of (item ∷ items) =
    group_items
      (record {
        start = page_down item.offset;
        stop = page_up (add64 item.offset item.length);
        members = item ∷ [];
      })
      items

-- The inner loop: the payloads of one group go to their places.
pub parse_members : Bool → Bool → Group → Bytes → List Item → List Bytes → Result (List Bytes)
parse_members with_bucket integrity group buffer [] out = ok out
parse_members with_bucket integrity group buffer (item ∷ items) out =
    elim (parse with_bucket integrity buffer (sub64 item.offset group.start) item.length item.id
      item.offset) [
        | ok found ↦
            parse_members with_bucket integrity group buffer items (set out item.index found.1)
        | err e ↦ err e
      ]

pub parse_groups : Bool → Bool → List Group → List Bytes → List Bytes → Result (List Bytes)
unfolding parse_members
parse_groups with_bucket integrity [] buffers out = ok out
parse_groups with_bucket integrity (group ∷ groups) [] out = ok out
parse_groups with_bucket integrity (group ∷ groups) (buffer ∷ buffers) out =
    elim (parse_members with_bucket integrity group buffer group.members out) [
      | ok filled ↦ parse_groups with_bucket integrity groups buffers filled
      | err e ↦ err e
    ]

module _ (io : BlockIo) where
  open io use {Io, read_vec}

  -- A buffer for each group.
  pub take_buffers : List Group → Exec (PagedFile × Io) (List AlignedBuf)
  take_buffers [] = pure []
  take_buffers (group ∷ groups) = do
    buffer ← take_sized (sub64 group.stop group.start)
    buffers ← take_buffers groups
    pure (buffer ∷ buffers)

  abbrev request : Group → ReadReq
  request group = record { off = group.start; len = sub64 group.stop group.start }

  abbrev recycle_buffers : List AlignedBuf → PagedFile → PagedFile
  recycle_buffers [] paged = paged
  recycle_buffers (buffer ∷ buffers) paged = recycle_buffers buffers (recycle buffer paged)

  -- The buffers go back to the pool only if every record was parsed.
  unfoldable pub read_many : List (ℕ × ℕ × ℕ) → Exec (DataFile × Io) (List Bytes)
  unfolding sort_by_offset groups_of parse_groups take_buffers
  read_many items = do
    on_paged io (flush io)
    let groups = groups_of (sort_by_offset (numbered 0 items))
    buffers ← on_paged io (take_buffers groups)
    pages ← on_paged io (on_io io (λ file. read_vec file (map request groups)))
    with_bucket ← gets (λ s. s.0.with_bucket)
    integrity ← gets (λ s. s.0.integrity)
    out ← lift (parse_groups with_bucket integrity groups pages (replicate (length items) []))
    on_paged io (modify (λ s. (recycle_buffers buffers s.0, s.1)))
    pure out
