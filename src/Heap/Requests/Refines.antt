-- ===== src/Heap/Requests/Refines.antt =====
-- A heap in the append layout refines a table from numbers to payloads.
use uol_ms_project.Prelude.{
  inr, inl, arith, Option-cases, List, [], ◌∷◌, All, length, ◌+◌, List, ◌≤◌, ℕ, ◌<◌, ◌≡◌, refl, sym,
  ap, ◌∙◌, subst, some, none,
}
use uol_ms_project.Prelude.Exec.{Returns-weaken, Returns, Raises}
use uol_ms_project.Error.{HeapError, Result, not_found}
use uol_ms_project.Heap.Operations.{insert}
use uol_ms_project.Heap.Requests.{
  change_known, to_insert, to_read, to_delete, to_update, inserted, found, finished, refused,
}
use uol_ms_project.Bytes.{Bytes, IsByte}
use uol_ms_project.Io.{BlockIo, IsReliable}
use uol_ms_project.Heap.Abstract.{HasRoom-after, HasRoom, AppendHeap, IsTable, Leaves}
use uol_ms_project.Heap.Requests.{
  table_after_all, table_after, answers_of, answer_of, IsRequest, ids_of, ids_of_all, room_of,
  room_of_all, if_known, served, serve_all, Request, Answer, serve,
}
use uol_ms_project.Heap.Table.{put, Table}
use uol_ms_project.Index.Slots.{id_limit}
use uol_ms_project.Heap.Inserts.{insert_into_lem}
use uol_ms_project.Heap.Missing.{missing_lem}
use uol_ms_project.Heap.Updates.{update_lem}
use uol_ms_project.Heap.Deletes.{delete_lem}
use uol_ms_project.Heap.Lookups.{read_some_lem}

module _ (io : BlockIo) where
  -- One answer, and what it leaves.
  record Serves (answer : Answer) (table : Table) (room ids : ℕ) (s : AppendHeap io)
      (r : Answer × AppendHeap io) : Type 0 where
    pub used : ℕ
    pub answered : r.0 ≡ answer
    pub enough : used ≤ room
    pub left : Leaves io table used ids s r.1

  Returns-Serves :
      {A : Type 0} (f : A → Answer) (answer : Answer) (table : Table) (used room ids : ℕ)
      (s : AppendHeap io) (r : Result A × AppendHeap io)
      → used ≤ room
      → Returns (λ a after. (f a ≡ answer) × Leaves io table used ids s after) r
      → Serves answer table room ids s (served io f r)
  Returns-Serves f answer table used room ids s r less h =
      subst (λ q. Serves answer table room ids s (served io f q)) (sym h.outcome)
        (record { used = used; answered = h.post.0; enough = less; left = h.post.1 })

  Raises-Serves :
      {A : Type 0} (f : A → Answer) (e : HeapError) (table : Table) (room : ℕ) (s : AppendHeap io)
      (r : Result A × AppendHeap io)
      → Raises e (Leaves io table 0 0 s) r
      → Serves (refused e) table room 0 s (served io f r)
  Raises-Serves f e table room s r h =
      subst (λ q. Serves (refused e) table room 0 s (served io f q)) (sym h.outcome)
        (record { used = 0; answered = refl; enough = omega arith; left = h.post })

module _ (io : BlockIo) (reliable : IsReliable io) where
  read-Serves :
      (id : ℕ) (table : Table) (s : AppendHeap io)
      → IsTable io table s
      → id < id_limit
      → Serves io (if_known id found (table id)) table 0 0 s (serve io (to_read id) s)
  unfolding serve
  read-Serves id table s h small = elim (Option-cases (table id)) [
    | inl missing ↦ rw missing (
        Raises-Serves io found (not_found id) table 0 s _
          (missing_lem io reliable id [] table s h small missing).0)
    | inr (old, holds) ↦ rw holds (
        Returns-Serves io found (found old) table 0 0 0 s _ (omega arith) (
          Returns-weaken _ (read_some_lem io reliable id old table s h small holds)
            (λ p after (e, left). (ap found e, left))))
  ]

  delete-Serves :
      (id : ℕ) (table : Table) (s : AppendHeap io)
      → IsTable io table s
      → id < id_limit
      → Serves io
          (if_known id (λ old. finished) (table id))
          (change_known (table id) id none table)
          0
          0
          s
          (serve io (to_delete id) s)
  unfolding serve
  delete-Serves id table s h small = elim (Option-cases (table id)) [
    | inl missing ↦ rw missing (
        Raises-Serves io (λ u. finished) (not_found id) table 0 s _
          (missing_lem io reliable id [] table s h small missing).2)
    | inr (old, holds) ↦ rw holds (
        Returns-Serves io (λ u. finished) finished (put id none table) 0 0 0 s _ (omega arith)
          (Returns-weaken _ (delete_lem io reliable id old table s h small holds)
            (λ p after left. (refl, left))))
  ]

  update-Serves :
      (id : ℕ) (payload : Bytes) (table : Table) (s : AppendHeap io)
      → IsTable io table s
      → HasRoom io (30 + length payload) s
      → id < id_limit
      → All IsByte payload
      → Serves io
          (if_known id (λ old. finished) (table id))
          (change_known (table id) id (some payload) table)
          (30 + length payload)
          0
          s
          (serve io (to_update id payload) s)
  unfolding serve
  update-Serves id payload table s h room small bytes = elim (Option-cases (table id)) [
    | inl missing ↦ rw missing (
        Raises-Serves io (λ u. finished) (not_found id) table (30 + length payload) s _
          (missing_lem io reliable id payload table s h small missing).1)
    | inr (old, holds) ↦ rw holds (
        Returns-Serves io (λ u. finished) finished (put id (some payload) table)
          (30 + length payload) (30 + length payload) 0 s _ (omega arith)
          (Returns-weaken _ (update_lem io reliable id old payload table s h room small holds bytes)
            (λ p after left. (refl, left))))
  ]

  insert-Serves :
      (payload : Bytes) (table : Table) (s : AppendHeap io)
      → IsTable io table s
      → HasRoom io (30 + length payload) s
      → s.placement.next_id < id_limit
      → All IsByte payload
      → Serves io
          (inserted s.placement.next_id)
          (put s.placement.next_id (some payload) table)
          (30 + length payload)
          1
          s
          (serve io (to_insert payload) s)
  unfolding serve insert
  insert-Serves payload table s h room number bytes =
      Returns-Serves io inserted (inserted s.placement.next_id)
        (put s.placement.next_id (some payload) table) (30 + length payload) (30 + length payload) 1
        s _ (omega arith)
        (Returns-weaken _ (insert_into_lem io reliable 0 payload table s h room number bytes)
          (λ id after (given, unused, left). (
            ap inserted given,
            subst (λ k. Leaves io (put k (some payload) table) (30 + length payload) 1 s after)
                given left,
          )))

  serve_lem :
      (r : Request) (table : Table) (s : AppendHeap io)
      → IsTable io table s
      → HasRoom io (room_of r) s
      → s.placement.next_id + ids_of r ≤ id_limit
      → IsRequest r
      → Serves io
          (answer_of r table s.placement.next_id)
          (table_after r table s.placement.next_id)
          (room_of r)
          (ids_of r)
          s
          (serve io r s)
  serve_lem (to_insert payload) table s h room ids fits =
      insert-Serves payload table s h room (omega arith) fits
  serve_lem (to_read id) table s h room ids fits = read-Serves id table s h fits
  serve_lem (to_delete id) table s h room ids fits = delete-Serves id table s h fits
  serve_lem (to_update id payload) table s h room ids fits =
      update-Serves id payload table s h room fits.0 fits.1

  -- Over a reliable backend, a heap in the append layout that stands for a table answers a sequence
  -- of inserts, reads, updates and deletes as the table does, and stands for the table that they
  -- leave. An insert is answered with the next number; a read with the payload; and a read, an
  -- update or a delete of a number that the table does not have with the error not found. The
  -- numbers in the requests are below 2 ^ 56, as are those that are given, the payloads are bytes,
  -- and the records fit with twice the growth of the file and three pages below 2 ^ 63.
  pub serve_all_lem :
      (rs : List Request) (table : Table) (s : AppendHeap io)
      → IsTable io table s
      → HasRoom io (room_of_all rs) s
      → s.placement.next_id + ids_of_all rs ≤ id_limit
      → All IsRequest rs
      → ((serve_all io rs s).0 ≡ answers_of rs table s.placement.next_id)
        × IsTable io (table_after_all rs table s.placement.next_id) (serve_all io rs s).1
  unfolding serve_all
  serve_all_lem [] table s h room ids fits = (refl, h)
  serve_all_lem (r ∷ rs) table s h room ids (fit, fits) =
      let here =
        serve_lem r table s h (record { upto = omega (arith, room.upto); growth = room.growth })
          (omega arith) fit in
      let t = (serve io r s).1 in
      let rest =
        serve_all_lem rs (table_after r table s.placement.next_id) t here.left.is_table
          (HasRoom-after io (room_of r + room_of_all rs) (room_of_all rs) here.used (ids_of r)
            (table_after r table s.placement.next_id) s t (omega (arith, here.enough)) room
            here.left)
          (omega (arith, here.left.given)) fits in
      (
        (λ i.
            here.answered i
            ∷ (rest.0
                  ∙ ap (answers_of rs (table_after r table s.placement.next_id)) here.left.given)
                i),
        subst
            (λ n.
              IsTable io (table_after_all rs (table_after r table s.placement.next_id) n)
                (serve_all io rs t).1)
            here.left.given rest.1,
      )
