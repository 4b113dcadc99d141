-- ===== src/Heap/Commits.antt =====
-- Commits change where the bytes of a heap are kept, and nothing that the heap stands for.
use uol_ms_project.Prelude.{
  arith, ℕ, ◌∷◌, inr, ==→eq, [], inl, ◌==◌, none, List, some, length, Option, ◌∙◌, Bool-cases, true,
  false, ◌^◌, if◌then◌else◌, ◌%◌, Bool, ◌+◌, ◌≡◌, refl, sym, ap, subst,
}
use uol_ms_project.Prelude.Exec.{pure, Returns, returns, Returns-bind, Returns-weaken}
use uol_ms_project.Io.{BlockIo, IsReliable}
use uol_ms_project.Data.{StagedWrite, PagedFile}
use uol_ms_project.Data.Flush.{flush as flush_file}
use uol_ms_project.Data.View.{laid, IsCoherent}
use uol_ms_project.Data.Flush.Writes.{Flushed, flush_lem}
use uol_ms_project.Data.Stage.Fresh.{Flushed-Kept}
use uol_ms_project.Placement.{Placement}
use uol_ms_project.Heap.{
  Heap, on_registry, in_data, sync_file, commit, commit_registry, after_write,
}
use uol_ms_project.Heap.Same.{SameHeap, IsPlain, SameHeap-trans, Returns-on_index, Returns-in_data}

-- The files and the backend as `t` has them, and the rest as in `s`.
abbrev pub kept_but_files :
    (io : BlockIo) (policy : Placement io) → Heap io policy → Heap io policy → Heap io policy
kept_but_files io policy s t = record s {
  data_file = record s.data_file { paged_file = t.data_file.paged_file };
  index = t.index;
  registry = t.registry;
  io_state = t.io_state;
}

-- A paged file with nothing staged.
clean-Flushed :
    (paged : PagedFile) → IsCoherent paged → length paged.staged_writes ≡ 0 → Flushed paged paged
clean-Flushed paged h none_staged =
    let nothing = length-nil paged.staged_writes none_staged in
    record {
      coherent = h;
      nothing_staged = nothing;
      written = ap (λ ws. laid ws paged.file.cell) (sym nothing);
      same_end = refl;
    }
  where
    length-nil : (ws : List StagedWrite) → length ws ≡ 0 → ws ≡ []
    length-nil [] e = refl
    length-nil (w ∷ ws) e = absurd (omega (arith, e))

module _ (io : BlockIo) (reliable : IsReliable io) (policy : Placement io) where
  sync_file_lem :
      (paged : PagedFile) (s : BlockIo.Io io)
      → Returns (λ _ after. after.0 ≡ paged) (sync_file io policy (paged, s))
  sync_file_lem paged s =
      let done = reliable.syncs paged.file s in
      record {
        value = done.value;
        state = (paged, done.state);
        outcome = ap (λ r. (r.0, (paged, r.1))) done.outcome;
        post = refl;
      }

  -- What a commit makes of the registry, if there is one.
  abbrev pub FlushedRegistry : Option PagedFile → Option PagedFile → Type 0
  FlushedRegistry none none = Unit {0}
  FlushedRegistry none (some after) = ⊥
  FlushedRegistry (some paged) none = ⊥
  FlushedRegistry (some paged) (some after) = Flushed paged after

  abbrev pub IsRegistry : Option PagedFile → Type 0
  IsRegistry none = Unit {0}
  IsRegistry (some paged) = IsCoherent paged

  -- Each file of the heap holds the bytes that it stood for, and nothing is staged.
  pub record IsCommitted (s t : Heap io policy) : Type 0 where
    pub data_flushed : Flushed s.data_file.paged_file t.data_file.paged_file
    pub index_flushed : Flushed s.index t.index
    pub registry_flushed : FlushedRegistry s.registry t.registry
    pub frame : t ≡ kept_but_files io policy s t

  commit_registry_lem :
      (paged : PagedFile) (s : BlockIo.Io io)
      → IsCoherent paged
      → Returns (λ _ after. Flushed paged after.0) (commit_registry io policy (paged, s))
  unfolding commit_registry
  commit_registry_lem paged s h = elim (Bool-cases (length paged.staged_writes == 0)) [
    | inl nothing ↦ rw nothing (returns tt (paged, s) (clean-Flushed paged h (==→eq _ _ nothing)))
    | inr rows ↦ rw rows (
        Returns-bind (flush_file io) _ (flush_lem io reliable paged s h) (λ u t f.
          Returns-weaken _ (sync_file_lem t.0 t.1)
            (λ v after same. subst (Flushed paged) (sym same) f)))
  ]

  on_registry_lem :
      (s : Heap io policy) (registry : Option PagedFile)
      → s.registry ≡ registry
      → IsRegistry registry
      → Returns {A = Unit {0}}
          (λ _ t.
            FlushedRegistry registry t.registry
            × (t ≡ record s { registry = t.registry; io_state = t.io_state }))
          (elim registry [
            | none ↦ (pure {S = Heap io policy} tt) s
            | some paged ↦
                let r = commit_registry io policy (paged, s.io_state) in
                (r.0, record s { registry = some r.1.0; io_state = r.1.1 })
          ])
  on_registry_lem s none e h = returns tt s (subst (FlushedRegistry none) (sym e) tt, refl)
  on_registry_lem s (some paged) e h =
      let done = commit_registry_lem paged s.io_state h in
      record {
        value = tt;
        state = record s { registry = some done.state.0; io_state = done.state.1 };
        outcome =
            ap (λ r. (r.0, record s { registry = some r.1.0; io_state = r.1.1 })) done.outcome;
        post = (done.post, refl);
      }

  -- Over a reliable backend, a commit of a heap whose files are coherent, the registry's too where
  -- there is one, succeeds. Afterwards the data file, the index file and the registry each hold the
  -- bytes that they stood for, staged ones included, nothing is staged, and the files are coherent;
  -- the rest of the heap is the same, but for the state of the backend.
  pub commit_lem :
      (s : Heap io policy)
      → IsCoherent s.data_file.paged_file
      → IsCoherent s.index
      → IsRegistry s.registry
      → Returns (λ _ t. IsCommitted s t) (commit io policy s)
  unfolding commit
  commit_lem s data_coherent index_coherent registry_coherent =
      Returns-bind (on_registry io policy (commit_registry io policy)) _ {s = s}
        (on_registry_lem s s.registry refl registry_coherent)
        (λ u r (rows, e0).
          let same_data = ap (λ (h : Heap io policy). h.data_file.paged_file) e0 in
          let same_index = ap (λ (h : Heap io policy). h.index) e0 in
          Returns-bind (in_data io policy (flush_file io)) _
            (Returns-in_data io policy (flush_file io) r (
              flush_lem io reliable r.data_file.paged_file r.io_state
                (subst IsCoherent (sym same_data) data_coherent)))
            (λ u1 t1 (f1, e1).
              Returns-bind (in_data io policy (sync_file io policy)) _
                (Returns-in_data io policy (sync_file io policy) t1
                  (sync_file_lem t1.data_file.paged_file t1.io_state))
                (λ u2 t2 (f2, e2).
                  let index2 =
                    ap (λ (h : Heap io policy). h.index) e2
                    ∙ ap (λ (h : Heap io policy). h.index) e1
                    ∙ same_index in
                  Returns-weaken _
                    (Returns-on_index io policy (flush_file io) t2 (
                      flush_lem io reliable t2.index t2.io_state
                        (subst IsCoherent (sym index2) index_coherent)))
                    (λ u3 t3 (f3, e3).
                      let rest = kept_but_files io policy in
                      record {
                        data_flushed =
                            subst (λ q. Flushed q t3.data_file.paged_file) same_data
                              (subst (Flushed r.data_file.paged_file)
                                (sym (ap (λ (h : Heap io policy). h.data_file.paged_file) e3 ∙ f2))
                                f1);
                        index_flushed = subst (λ q. Flushed q t3.index) index2 f3;
                        registry_flushed =
                            subst (FlushedRegistry s.registry)
                              (sym (
                                ap (λ (h : Heap io policy). h.registry) e3
                                ∙ ap (λ (h : Heap io policy). h.registry) e2
                                ∙ ap (λ (h : Heap io policy). h.registry) e1))
                              rows;
                        frame =
                            ap (λ h. rest h t3) e3
                            ∙ ap (λ h. rest h t3) e2
                            ∙ ap (λ h. rest h t3) e1
                            ∙ ap (λ h. rest h t3) e0;
                      }))))

  -- Without a registry the heap stands for the same bytes.
  commit-SameHeap :
      (s : Heap io policy)
      → IsPlain io policy s
      → Returns (λ _ t. SameHeap io policy s t) (commit io policy s)
  commit-SameHeap s p =
      Returns-weaken _
        (commit_lem s p.data_coherent p.index_coherent (subst IsRegistry (sym p.no_registry) tt))
        (λ u t done. record {
          data_kept = Flushed-Kept s.data_file.paged_file t.data_file.paged_file done.data_flushed;
          index_kept = Flushed-Kept s.index t.index done.index_flushed;
          frame =
              done.frame
              ∙ ap
                  (λ (q : Option PagedFile × ℕ). record (kept_but_files io policy s t) {
                    registry = q.0;
                    operations_since_sync = q.1;
                  })
                  (λ i. (
                    (none_left t.registry (
                            subst (λ q. FlushedRegistry q t.registry) p.no_registry
                              done.registry_flushed)
                          ∙ sym p.no_registry)
                        i,
                    sym (ap (λ (h : Heap io policy). h.operations_since_sync) done.frame) i,
                  ));
        })
    where
      none_left : (q : Option PagedFile) → FlushedRegistry none q → q ≡ none
      none_left none h = refl
      none_left (some paged) h = absurd h

  either_commit :
      (s c : Heap io policy) (due large : Bool)
      → IsPlain io policy c
      → SameHeap io policy s c
      → Returns
          (λ _ t. SameHeap io policy s t)
          ((if due then commit io policy else if large then commit io policy else pure tt) c)
  either_commit s c true large p same =
      Returns-weaken _ (commit-SameHeap c p) (λ u t q. SameHeap-trans io policy s c t same q)
  either_commit s c false true p same =
      Returns-weaken _ (commit-SameHeap c p) (λ u t q. SameHeap-trans io policy s c t same q)
  either_commit s c false false p same = returns tt c same

  -- After a write the heap may commit by its policy, or for the bytes that wait; it stands for the
  -- same records either way.
  pub after_write_lem :
      (s : Heap io policy)
      → IsPlain io policy s
      → Returns (λ _ t. SameHeap io policy s t) (after_write io policy s)
  unfolding after_write
  after_write_lem s p =
      either_commit s (record s { operations_since_sync = (s.operations_since_sync + 1) % 2 ^ 32 })
        _ _
        (record {
          data_coherent = p.data_coherent;
          index_coherent = p.index_coherent;
          no_registry = p.no_registry;
        })
        (record {
          data_kept = record { coherent = p.data_coherent; same_view = refl; same_end = refl };
          index_kept = record { coherent = p.index_coherent; same_view = refl; same_end = refl };
          frame = refl;
        })
