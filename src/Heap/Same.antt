-- ===== src/Heap/Same.antt =====
-- Heaps that keep the same bytes in different ways, and the methods of a part of the heap.
use uol_ms_project.Prelude.{arith, ℕ, ◌≡◌, refl, sym, ap, subst, ◌∙◌, none, some, Option}
use uol_ms_project.Prelude.Exec.{Exec, pure, Returns, returns}
use uol_ms_project.Io.{BlockIo}
use uol_ms_project.Data.{PagedFile}
use uol_ms_project.Data.View.{IsCoherent}
use uol_ms_project.Data.Stage.Fresh.{Kept, Kept-trans}
use uol_ms_project.Records.{DataFile}
use uol_ms_project.Placement.{Placement}
use uol_ms_project.Heap.{Heap, on_data, on_index, in_data}

module _ (io : BlockIo) (policy : Placement io) where
  -- The two heaps differ in how they keep their bytes, in the backend and in the count of operations.
  pub record SameHeap (s t : Heap io policy) : Type 0 where
    pub data_kept : Kept s.data_file.paged_file t.data_file.paged_file
    pub index_kept : Kept s.index t.index
    pub frame : t ≡ record s {
      data_file = record s.data_file { paged_file = t.data_file.paged_file };
      index = t.index;
      io_state = t.io_state;
      operations_since_sync = t.operations_since_sync;
    }

  -- Both files are coherent, and there is no registry.
  pub record IsPlain (s : Heap io policy) : Type 0 where
    pub data_coherent : IsCoherent s.data_file.paged_file
    pub index_coherent : IsCoherent s.index
    pub no_registry : s.registry ≡ none

  pub SameHeap-IsPlain : (s t : Heap io policy) → IsPlain s → SameHeap s t → IsPlain t
  SameHeap-IsPlain s t p same = record {
    data_coherent = same.data_kept.coherent;
    index_coherent = same.index_kept.coherent;
    no_registry = ap (λ (h : Heap io policy). h.registry) same.frame ∙ p.no_registry;
  }

  pub SameHeap-refl : (s : Heap io policy) → IsPlain s → SameHeap s s
  SameHeap-refl s p = record {
    data_kept = record { coherent = p.data_coherent; same_view = refl; same_end = refl };
    index_kept = record { coherent = p.index_coherent; same_view = refl; same_end = refl };
    frame = refl;
  }

  pub SameHeap-trans : (s t u : Heap io policy) → SameHeap s t → SameHeap t u → SameHeap s u
  SameHeap-trans s t u p q = record {
    data_kept = Kept-trans _ _ _ p.data_kept q.data_kept;
    index_kept = Kept-trans _ _ _ p.index_kept q.index_kept;
    frame =
        q.frame
        ∙ ap
            (λ (h : Heap io policy). record h {
              data_file = record h.data_file { paged_file = u.data_file.paged_file };
              index = u.index;
              io_state = u.io_state;
              operations_since_sync = u.operations_since_sync;
            })
            p.frame;
  }

  pub Returns-on_data :
      {A : Type 0} {P : A → DataFile × BlockIo.Io io → Type 0}
      (method : Exec (DataFile × BlockIo.Io io) A) (s : Heap io policy)
      → Returns P (method (s.data_file, s.io_state))
      → Returns
          (λ a t.
            P a (t.data_file, t.io_state)
            × (t ≡ record s { data_file = t.data_file; io_state = t.io_state }))
          (on_data io policy method s)
  Returns-on_data method s h = record {
    value = h.value;
    state = record s { data_file = h.state.0; io_state = h.state.1 };
    outcome = ap (λ r. (r.0, record s { data_file = r.1.0; io_state = r.1.1 })) h.outcome;
    post = (h.post, refl);
  }

  pub Returns-on_index :
      {A : Type 0} {P : A → PagedFile × BlockIo.Io io → Type 0}
      (method : Exec (PagedFile × BlockIo.Io io) A) (s : Heap io policy)
      → Returns P (method (s.index, s.io_state))
      → Returns
          (λ a t.
            P a (t.index, t.io_state) × (t ≡ record s { index = t.index; io_state = t.io_state }))
          (on_index io policy method s)
  Returns-on_index method s h = record {
    value = h.value;
    state = record s { index = h.state.0; io_state = h.state.1 };
    outcome = ap (λ r. (r.0, record s { index = r.1.0; io_state = r.1.1 })) h.outcome;
    post = (h.post, refl);
  }

  pub Returns-in_data :
      {P : Unit {0} → PagedFile × BlockIo.Io io → Type 0}
      (method : Exec (PagedFile × BlockIo.Io io) (Unit {0})) (s : Heap io policy)
      → Returns P (method (s.data_file.paged_file, s.io_state))
      → Returns
          (λ a t.
            P a (t.data_file.paged_file, t.io_state)
            × (t ≡ record s {
              data_file = record s.data_file { paged_file = t.data_file.paged_file };
              io_state = t.io_state;
            }))
          (in_data io policy method s)
  Returns-in_data method s h = record {
    value = h.value;
    state = record s {
      data_file = record s.data_file { paged_file = h.state.0 };
      io_state = h.state.1;
    };
    outcome =
        ap
          (λ r. (
            r.0,
            record s { data_file = record s.data_file { paged_file = r.1.0 }; io_state = r.1.1 },
          ))
          h.outcome;
    post = (h.post, refl);
  }

  -- A change of one file that keeps what the file stands for.
  pub SameHeap-data :
      (s t : Heap io policy)
      → IsPlain s
      → Kept s.data_file.paged_file t.data_file.paged_file
      → t ≡ record s {
        data_file = record s.data_file { paged_file = t.data_file.paged_file };
        io_state = t.io_state;
      }
      → SameHeap s t
  SameHeap-data s t p kept e =
      let index : t.index ≡ s.index = ap (λ (h : Heap io policy). h.index) e in
      let count : t.operations_since_sync ≡ s.operations_since_sync =
        ap (λ (h : Heap io policy). h.operations_since_sync) e in
      record {
        data_kept = kept;
        index_kept =
            subst (Kept s.index) (sym index)
              (record { coherent = p.index_coherent; same_view = refl; same_end = refl });
        frame =
            e
            ∙ ap
                (λ (c : PagedFile × ℕ). record s {
                  data_file = record s.data_file { paged_file = t.data_file.paged_file };
                  index = c.0;
                  io_state = t.io_state;
                  operations_since_sync = c.1;
                })
                (λ i. (sym index i, sym count i));
      }

  pub SameHeap-index :
      (s t : Heap io policy)
      → IsPlain s
      → Kept s.index t.index
      → t ≡ record s { index = t.index; io_state = t.io_state }
      → SameHeap s t
  SameHeap-index s t p kept e =
      let file : t.data_file ≡ s.data_file = ap (λ (h : Heap io policy). h.data_file) e in
      let count : t.operations_since_sync ≡ s.operations_since_sync =
        ap (λ (h : Heap io policy). h.operations_since_sync) e in
      record {
        data_kept =
            subst (λ (q : DataFile). Kept s.data_file.paged_file q.paged_file) (sym file)
              (record { coherent = p.data_coherent; same_view = refl; same_end = refl });
        index_kept = kept;
        frame =
            e
            ∙ ap
                (λ (c : DataFile × ℕ). record s {
                  data_file = record s.data_file { paged_file = c.0.paged_file };
                  index = t.index;
                  io_state = t.io_state;
                  operations_since_sync = c.1;
                })
                (λ i. (sym file i, sym count i));
      }

  -- Without a registry its part of a commit does nothing.
  pub Returns-no_registry :
      (method : Exec (PagedFile × BlockIo.Io io) (Unit {0})) (s : Heap io policy)
      (registry : Option PagedFile)
      → registry ≡ none
      → Returns {A = Unit {0}}
          (λ _ t. t ≡ s)
          (elim registry [
            | none ↦ (pure {S = Heap io policy} tt) s
            | some paged ↦
                let r = method (paged, s.io_state) in
                (r.0, record s { registry = some r.1.0; io_state = r.1.1 })
          ])
  Returns-no_registry method s none e = returns tt s refl
  Returns-no_registry method s (some paged) e = absurd (ground (arith, e))
