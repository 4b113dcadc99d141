-- ===== src/Recovery/Index/Writes.antt =====
-- The entries of a rebuilt index.
use uol_ms_project.Prelude.{
  ℕ, ◌<◌, ◌≡◌, ◌≢◌, refl, sym, ap, subst, ◌∙◌, Bool, true, false, Bool-cases, inl, inr, Option,
  none, some, List, [], ◌∷◌, ◌==◌, ==→eq, ==→ne, if◌then◌else◌,
}
use uol_ms_project.Prelude.Exec.{pure, Returns, returns, Returns-bind, Returns-weaken}
use uol_ms_project.Bytes.{Bytes}
use uol_ms_project.Io.{BlockIo, IsReliable}
use uol_ms_project.Data.{PagedFile}
use uol_ms_project.Data.View.{view, IsCoherent}
use uol_ms_project.Data.Flush.{flush}
use uol_ms_project.Data.Flush.Writes.{flush_lem}
use uol_ms_project.Index.{slot_bytes, stage_slot}
use uol_ms_project.Recovery.{Latest}
use uol_ms_project.Recovery.Index.{slot_of, stage_latest, stage_ids, write_index}
use uol_ms_project.Index.Slots.{stage_slot_lem, entry, id_limit}
use uol_ms_project.Data.Stage.Fresh.{Flushed-Kept}
use uol_ms_project.Data.Access.{Returns-on_io}

-- The records that are kept for the numbers.
abbrev pub AllKept : (ℕ → Option Latest) → List ℕ → Type 0
AllKept latest_records [] = Unit {0}
AllKept latest_records (id ∷ ids) =
    ((id < id_limit) × (latest_records id ≢ none)) × AllKept latest_records ids

-- The bytes of an entry, for a record that is kept.
abbrev pub kept_bytes : Option Latest → Bytes → Bytes
kept_bytes none old = old
kept_bytes (some entry) old = slot_bytes (some (slot_of entry))

-- The entries after the slots of the numbers were written over others.
abbrev pub written : (ℕ → Option Latest) → List ℕ → (ℕ → Bytes) → ℕ → Bytes
written latest_records [] entries k = entries k
written latest_records (id ∷ ids) entries k =
    written latest_records ids
      (λ j. if j == id then kept_bytes (latest_records id) (entries id) else entries j) k

written-cong :
    (latest_records : ℕ → Option Latest) (ids : List ℕ) (f g : ℕ → Bytes)
    → ((k : ℕ) → f k ≡ g k)
    → (k : ℕ) → written latest_records ids f k ≡ written latest_records ids g k
written-cong latest_records ids f g h k =
    ap (λ (e : ℕ → Bytes). written latest_records ids e k) (λ i j. h j i)

module _ (io : BlockIo) (reliable : IsReliable io) where
  flush_if_large :
      (large : Bool) (paged : PagedFile) (s : BlockIo.Io io)
      → IsCoherent paged
      → Returns
          (λ _ after. IsCoherent after.0 × (view after.0 ≡ view paged))
          ((if large then flush io else pure tt) (paged, s))
  flush_if_large true paged s h =
      Returns-weaken _ (flush_lem io reliable paged s h)
        (λ u after f. let kept = Flushed-Kept paged after.0 f in (kept.coherent, kept.same_view))
  flush_if_large false paged s h = returns tt (paged, s) (h, refl)

  stage_latest_lem :
      (id : ℕ) (kept : Option Latest) (paged : PagedFile) (s : BlockIo.Io io)
      → IsCoherent paged
      → id < id_limit
      → kept ≢ none
      → Returns
          (λ _ after.
            IsCoherent after.0
            × ((k : ℕ)
                → entry (view after.0) k ≡ (
                    if k == id
                    then kept_bytes kept (entry (view paged) id)
                    else entry (view paged) k)))
          (stage_latest io id kept (paged, s))
  unfolding stage_latest
  stage_latest_lem id none paged s h small some_kept = absurd (some_kept refl)
  stage_latest_lem id (some e) paged s h small some_kept =
      Returns-bind (stage_slot io id (some (slot_of e))) _
        (stage_slot_lem io reliable id (some (slot_of e)) paged s h small)
        (λ u mid staged.
          Returns-weaken _ (flush_if_large _ mid.0 mid.1 staged.coherent)
            (λ v after (coherent, same). (
              coherent,
              λ k. ap (λ c. entry c k) same ∙ elim (Bool-cases (k == id)) [
                | inl here ↦ rw here (ap (entry (view mid.0)) (==→eq k id here) ∙ staged.written)
                | inr other ↦ rw other (staged.others k (==→ne k id other))
              ],
            )))

  stage_ids_lem :
      (latest_records : ℕ → Option Latest) (ids : List ℕ) (paged : PagedFile) (s : BlockIo.Io io)
      → IsCoherent paged
      → AllKept latest_records ids
      → Returns
          (λ _ after.
            IsCoherent after.0
            × ((k : ℕ)
                → entry (view after.0) k ≡ written latest_records ids (entry (view paged)) k))
          (stage_ids io latest_records ids (paged, s))
  unfolding stage_ids
  stage_ids_lem latest_records [] paged s h kept = returns tt (paged, s) (h, λ k. refl)
  stage_ids_lem latest_records (id ∷ ids) paged s h ((small, some_kept), kept) =
      Returns-bind (stage_latest io id (latest_records id)) _
        (stage_latest_lem id (latest_records id) paged s h small some_kept)
        (λ u mid (coherent, one).
          Returns-weaken _ (stage_ids_lem latest_records ids mid.0 mid.1 coherent kept)
            (λ v after (coherent2, rest). (
              coherent2,
              λ k. rest k ∙ written-cong latest_records ids (entry (view mid.0)) _ one k,
            )))

  -- Writing a rebuilt index over a reliable backend succeeds on a coherent index file, for numbers
  -- below 2 ^ 56 that have a kept record. Then the file itself, with nothing staged, holds the slots
  -- of these records in their entries, and the other entries are as before.
  pub write_index_lem :
      (latest_records : ℕ → Option Latest) (ids : List ℕ) (paged : PagedFile) (s : BlockIo.Io io)
      → IsCoherent paged
      → AllKept latest_records ids
      → Returns
          (λ _ after.
            IsCoherent after.0
            × (after.0.staged_writes ≡ [])
            × ((k : ℕ)
                → entry after.0.file.cell k ≡ written latest_records ids (entry (view paged)) k))
          (write_index io latest_records ids (paged, s))
  unfolding write_index
  write_index_lem latest_records ids paged s h kept =
      Returns-bind (stage_ids io latest_records ids) _
        (stage_ids_lem latest_records ids paged s h kept)
        (λ u mid (coherent, entries).
          Returns-bind (flush io) _ (flush_lem io reliable mid.0 mid.1 coherent) (λ v done f.
            Returns-weaken _
              (Returns-on_io io (λ file. BlockIo.sync io file) done.0 done.1
                (reliable.syncs done.0.file done.1))
              (λ w after (_, same). (
                subst IsCoherent (sym same) f.coherent,
                ap (λ (q : PagedFile). q.staged_writes) same ∙ f.nothing_staged,
                λ k.
                    ap (λ (q : PagedFile). entry q.file.cell k) same
                    ∙ ap (λ c. entry c k) f.written
                    ∙ entries k,
              ))))
