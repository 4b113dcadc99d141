-- ===== src/Heap/Abstract.antt =====
-- The abstract view of a heap in the append layout: a table from numbers to payloads.
use uol_ms_project.Prelude.{
  max, arith, ℕ, ◌+◌, ◌*◌, ◌≤◌, ◌≡◌, Bool, false, refl, sym, ap, subst, ◌∙◌, Option,
}
use uol_ms_project.Prelude.Exec.{Exec, Returns}
use uol_ms_project.Format.{page_size}
use uol_ms_project.Io.{BlockIo}
use uol_ms_project.Data.{PagedFile}
use uol_ms_project.Data.View.{view, limit}
use uol_ms_project.Placement.{HeapConfig, Files}
use uol_ms_project.Placement.Append.{append_placement, AppendPlacement}
use uol_ms_project.Heap.{Heap, on_placement}
use uol_ms_project.Heap.Same.{SameHeap, IsPlain, SameHeap-IsPlain}
use uol_ms_project.Heap.Table.{Table, IsStore}

module _ (io : BlockIo) where
  abbrev pub AppendHeap : Type 0
  AppendHeap = Heap io (append_placement io)

  -- The table that the two files of a heap stand for, its staged writes included.
  abbrev pub Stores : Table → AppendHeap → Type 0
  Stores table s =
      IsStore table s.data_file.integrity (view s.data_file.paged_file) (view s.index)
        s.placement.cursor s.placement.next_id

  -- What no operation on records changes.
  abbrev pub settings : AppendHeap → Bool × Bool × Option PagedFile × HeapConfig × Bool
  settings s = (s.data_file.with_bucket, s.data_file.integrity, s.registry, s.config, s.armed)

  -- A heap in the append layout, between two operations, whose records are those of the table.
  pub record IsTable (table : Table) (s : AppendHeap) : Type 0 where
    pub plain : IsPlain io (append_placement io) s
    pub layout : s.data_file.with_bucket ≡ false
    pub store : Stores table s

  -- There is room for `len` bytes of records, below the limit for offsets, and for the growth of the
  -- file.
  pub record HasRoom (len : ℕ) (s : AppendHeap) : Type 0 where
    pub upto : s.placement.cursor + len + 2 * s.config.growth + 3 * page_size ≤ limit
    pub growth : s.data_file.paged_file.allocated_end + s.config.growth + page_size ≤ limit

  -- What an operation leaves: a heap of this table, with the same settings.
  -- `len` more bytes are used, `ids` more numbers are given, and the data file grew as it needs to.
  pub record Leaves (table : Table) (len ids : ℕ) (s after : AppendHeap) : Type 0 where
    pub is_table : IsTable table after
    pub same_settings : settings after ≡ settings s
    pub used : after.placement.cursor ≡ s.placement.cursor + len
    pub given : after.placement.next_id ≡ s.placement.next_id + ids
    pub end :
        after.data_file.paged_file.allocated_end
        ≤ max s.data_file.paged_file.allocated_end
            (after.placement.cursor + s.config.growth + page_size)

  pub HasRoom-after :
      (len rest used ids : ℕ) (table : Table) (s t : AppendHeap)
      → used + rest ≤ len
      → HasRoom len s
      → Leaves table used ids s t
      → HasRoom rest t
  HasRoom-after len rest used ids table s t less room kept =
      let growth : t.config.growth ≡ s.config.growth = ap (λ c. c.3.growth) kept.same_settings in
      record {
        upto = omega (arith, room.upto, kept.used, growth);
        growth = omega (arith, room.upto, room.growth, kept.end, kept.used, growth);
      }

  pub SameHeap-Leaves :
      (table : Table) (s t : AppendHeap)
      → IsTable table s
      → SameHeap io (append_placement io) s t
      → Leaves table 0 0 s t
  SameHeap-Leaves table s t h same = record {
    is_table = record {
      plain = SameHeap-IsPlain io (append_placement io) s t h.plain same;
      layout = ap (λ (q : AppendHeap). q.data_file.with_bucket) same.frame ∙ h.layout;
      store =
          subst
            (λ (v : Bool × (ℕ → ℕ) × (ℕ → ℕ) × AppendPlacement).
              IsStore table v.0 v.1 v.2 v.3.cursor v.3.next_id)
            (sym (λ i. (
              ap (λ (q : AppendHeap). q.data_file.integrity) same.frame i,
              same.data_kept.same_view i,
              same.index_kept.same_view i,
              ap (λ (q : AppendHeap). q.placement) same.frame i,
            )))
            h.store;
    };
    same_settings = ap settings same.frame;
    used = omega (arith, ap (λ (q : AppendHeap). q.placement.cursor) same.frame);
    given = omega (arith, ap (λ (q : AppendHeap). q.placement.next_id) same.frame);
    end = omega (arith, same.data_kept.same_end);
  }

  -- What an operation leaves, and then what stands for the same.
  pub Leaves-then :
      (table table' : Table) (len ids : ℕ) (s t u : AppendHeap)
      → Leaves table len ids s t
      → Leaves table' 0 0 t u
      → Leaves table' len ids s u
  Leaves-then table table' len ids s t u p q = record {
    is_table = q.is_table;
    same_settings = q.same_settings ∙ p.same_settings;
    used = omega (arith, p.used, q.used);
    given = omega (arith, p.given, q.given);
    end = omega (arith, p.end, q.end, q.used, ap (λ c. c.3.growth) p.same_settings);
  }

  pub Keeps-then :
      (table table' : Table) (len ids : ℕ) (s t u : AppendHeap)
      → Leaves table 0 0 s t
      → Leaves table' len ids t u
      → Leaves table' len ids s u
  Keeps-then table table' len ids s t u p q = record {
    is_table = q.is_table;
    same_settings = q.same_settings ∙ p.same_settings;
    used = omega (arith, p.used, q.used);
    given = omega (arith, p.given, q.given);
    end = omega (arith, p.end, q.end, q.used, p.used, ap (λ c. c.3.growth) p.same_settings);
  }

  pub Returns-on_placement :
      {A : Type 0} {P : A → AppendPlacement × Files io → Type 0}
      (method : Exec (AppendPlacement × Files io) A) (s : AppendHeap)
      → Returns P (
          method (
            s.placement,
            record { data_file = s.data_file; registry = s.registry; io_state = s.io_state },
          ))
      → Returns
          (λ a t.
            P a (
              t.placement,
              record { data_file = t.data_file; registry = t.registry; io_state = t.io_state },
            )
            × (t ≡ record s {
              placement = t.placement;
              data_file = t.data_file;
              registry = t.registry;
              io_state = t.io_state;
            }))
          (on_placement io (append_placement io) method s)
  Returns-on_placement method s h = record {
    value = h.value;
    state = record s {
      placement = h.state.0;
      data_file = h.state.1.data_file;
      registry = h.state.1.registry;
      io_state = h.state.1.io_state;
    };
    outcome =
        ap
          (λ r. (
            r.0,
            record s {
              placement = r.1.0;
              data_file = r.1.1.data_file;
              registry = r.1.1.registry;
              io_state = r.1.1.io_state;
            },
          ))
          h.outcome;
    post = (h.post, refl);
  }
