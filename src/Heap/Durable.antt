-- ===== src/Heap/Durable.antt =====
-- `Heap::commit` of src/heap.rs where a file cannot be written: data must become durable before index
-- entries.
use uol_ms_project.Prelude.{sym, ◌≡◌, refl, ap, ◌∙◌, Option, none, some}
use uol_ms_project.Prelude.Exec.{Exec, continue, ◌>>◌}
use uol_ms_project.Error.{HeapError, Result, ok, err}
use uol_ms_project.Io.{BlockIo}
use uol_ms_project.Data.{PagedFile}
use uol_ms_project.Data.Flush.{flush as flush_file}
use uol_ms_project.Placement.{Placement}
use uol_ms_project.Heap.{on_index, Heap, on_registry, in_data, sync_file, commit, commit_registry}

-- A continuation that fails as another one does.
continue-err :
    {S : Type 0} {A : Type 0} (f g : A → Exec S A) (r : Result A × S) (e : HeapError) (t : S)
    → ((a : A) (s : S) → f a s ≡ (err e, t) → g a s ≡ (err e, t))
    → continue f r.0 r.1 ≡ (err e, t)
    → continue g r.0 r.1 ≡ (err e, t)
continue-err f g (ok a, s) e t h k = h a s k
continue-err f g (err failure, s) e t h k = k

-- What two steps leave alone.
continue-same :
    {S : Type 0} {A B : Type 0} (part : S → B) (f : A → Exec S A) (r : Result A × S) (b : B)
    → part r.1 ≡ b
    → ((a : A) (s : S) → part (f a s).1 ≡ part s)
    → part (continue f r.0 r.1).1 ≡ b
continue-same part f (ok a, s) b e h = h a s ∙ e
continue-same part f (err failure, s) b e h = e

module _ (io : BlockIo) (policy : Placement io) where
  -- The steps of a commit before the index file is flushed.
  abbrev pub before_index : Exec (Heap io policy) (Unit {0})
  before_index = do
    on_registry io policy (commit_registry io policy)
    in_data io policy (flush_file io)
    in_data io policy (sync_file io policy)

  abbrev index_of : Heap io policy → PagedFile
  index_of s = s.index

  registry_step :
      (s : Heap io policy) (registry : Option PagedFile)
      (method : Exec (PagedFile × BlockIo.Io io) (Unit {0}))
      → (λ (r : Result (Unit {0}) × Heap io policy). r.1.index)
          (elim registry [
            | none ↦ (ok tt, s)
            | some paged ↦
                let r = method (paged, s.io_state) in
                (r.0, record s { registry = some r.1.0; io_state = r.1.1 })
          ])
        ≡ s.index
  registry_step s none method = refl
  registry_step s (some paged) method = refl

  -- Over any backend, a commit that fails to write or to sync the registry or the data file fails
  -- with the same error, in the same state, and has not touched the index file.
  pub commit-keeps_index :
      (s t : Heap io policy) (e : HeapError)
      → before_index s ≡ (err e, t)
      → (commit io policy s ≡ (err e, t)) × (t.index ≡ s.index)
  unfolding commit
  commit-keeps_index s t e failed = (
    continue-err _ _ (on_registry io policy (commit_registry io policy) s) e t
        (λ u r. continue-err _ _ (in_data io policy (flush_file io) r) e t (λ v q k.
          ap
            (λ (w : Result (Unit {0}) × Heap io policy).
              continue (λ _. on_index io policy (flush_file io)) w.0 w.1)
            k))
        failed,
    sym (ap (λ (w : Result (Unit {0}) × Heap io policy). w.1.index) failed)
        ∙ continue-same index_of _ (on_registry io policy (commit_registry io policy) s) s.index
            (registry_step s s.registry (commit_registry io policy))
            (λ u r.
              continue-same index_of _ (in_data io policy (flush_file io) r) r.index refl
                (λ v q. refl)),
  )
