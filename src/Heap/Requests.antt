-- ===== src/Heap/Requests.antt =====
-- Sequences of operations on a heap in the append layout: the heap answers as a table does.
use uol_ms_project.Prelude.{
  List, [], ◌∷◌, length, All, Option, ◌+◌, List, ℕ, ◌<◌, ◌≡◌, refl, sym, ap, ◌∙◌, subst, some, none,
  false, true,
}
pub mod Refines
use uol_ms_project.Prelude.Exec.{Exec, Returns, Returns-bind, Returns-weaken, ◌>>=◌, ◌>>◌, pure}
use uol_ms_project.Error.{HeapError, Result, ok, err, not_found}
use uol_ms_project.Heap.Operations.{update, delete, read, insert}
use uol_ms_project.Bytes.{Bytes, IsByte}
use uol_ms_project.Io.{BlockIo, IsReliable}
use uol_ms_project.Placement.Append
use uol_ms_project.Heap.{Heap, on_data, on_index, on_placement, after_write}
use uol_ms_project.Heap.Abstract.{AppendHeap, IsTable, Leaves, settings}
use uol_ms_project.Heap.Table.{put, Table}
use uol_ms_project.Index.Slots.{id_limit}
use uol_ms_project.Placement.Append.{append_placement}

pub data Request : Type 0 where
  to_insert : Bytes → Request
  to_read to_delete : ℕ → Request
  to_update : ℕ → Bytes → Request

pub data Answer : Type 0 where
  inserted : ℕ → Answer
  found : Bytes → Answer
  finished : Answer
  refused : HeapError → Answer

-- What a table of `next_id` numbers answers.
abbrev pub if_known : ℕ → (Bytes → Answer) → Option Bytes → Answer
if_known id f none = refused (not_found id)
if_known id f (some payload) = f payload

abbrev pub answer_of : Request → Table → ℕ → Answer
answer_of (to_insert payload) table next_id = inserted next_id
answer_of (to_read id) table next_id = if_known id found (table id)
answer_of (to_delete id) table next_id = if_known id (λ old. finished) (table id)
answer_of (to_update id payload) table next_id = if_known id (λ old. finished) (table id)

-- The table afterwards; a number that it does not have stays unknown.
abbrev pub change_known : Option Bytes → ℕ → Option Bytes → Table → Table
change_known none id new table = table
change_known (some old) id new table = put id new table

abbrev pub table_after : Request → Table → ℕ → Table
table_after (to_insert payload) table next_id = put next_id (some payload) table
table_after (to_read id) table next_id = table
table_after (to_delete id) table next_id = change_known (table id) id none table
table_after (to_update id payload) table next_id = change_known (table id) id (some payload) table

abbrev pub ids_of : Request → ℕ
ids_of (to_insert payload) = 1
ids_of (to_read id) = 0
ids_of (to_delete id) = 0
ids_of (to_update id payload) = 0

abbrev pub answers_of : List Request → Table → ℕ → List Answer
answers_of [] table next_id = []
answers_of (r ∷ rs) table next_id =
    answer_of r table next_id ∷ answers_of rs (table_after r table next_id) (next_id + ids_of r)

abbrev pub table_after_all : List Request → Table → ℕ → Table
table_after_all [] table next_id = table
table_after_all (r ∷ rs) table next_id =
    table_after_all rs (table_after r table next_id) (next_id + ids_of r)

-- Bounds of the requests: the bytes of data that they may need, the numbers, and their arguments.
abbrev pub room_of : Request → ℕ
room_of (to_insert payload) = 30 + length payload
room_of (to_read id) = 0
room_of (to_delete id) = 0
room_of (to_update id payload) = 30 + length payload

abbrev pub room_of_all : List Request → ℕ
room_of_all [] = 0
room_of_all (r ∷ rs) = room_of r + room_of_all rs

abbrev pub ids_of_all : List Request → ℕ
ids_of_all [] = 0
ids_of_all (r ∷ rs) = ids_of r + ids_of_all rs

abbrev pub IsRequest : Request → Type 0
IsRequest (to_insert payload) = All IsByte payload
IsRequest (to_read id) = id < id_limit
IsRequest (to_delete id) = id < id_limit
IsRequest (to_update id payload) = (id < id_limit) × All IsByte payload

module _ (io : BlockIo) where
  -- What a caller of the heap sees.
  abbrev pub served :
      {A : Type 0} → (A → Answer) → Result A × AppendHeap io → Answer × AppendHeap io
  served f (ok a, s) = (f a, s)
  served f (err e, s) = (refused e, s)

  unfoldable pub serve : Request → AppendHeap io → Answer × AppendHeap io
  serve (to_insert payload) s = served inserted (insert io (append_placement io) payload s)
  serve (to_read id) s = served found (read io (append_placement io) id s)
  serve (to_delete id) s = served (λ u. finished) (delete io (append_placement io) id s)
  serve (to_update id payload) s =
      served (λ u. finished) (update io (append_placement io) id payload s)

  unfoldable pub serve_all : List Request → AppendHeap io → List Answer × AppendHeap io
  unfolding serve
  serve_all [] s = ([], s)
  serve_all (r ∷ rs) s =
      let here = serve r s in let rest = serve_all rs here.1 in (here.0 ∷ rest.0, rest.1)
