-- ===== src/Placement/Bucket/Search.antt =====
-- The search for an extent ends: within its fuel it takes an extent or fails with an error of the
-- source.
use uol_ms_project.Prelude.{
  sub64-eq, false, ap, ltb→le, leb→lt, leb→le, ltb→lt, ℕ, zero, suc, ◌+◌, ◌-◌, ◌*◌, ◌^◌, ◌≤◌, ◌<◌,
  ◌≡◌, ◌≢◌, max, Bool-cases, ◌==◌, leb, ltb, inl, inr, none, some, Option, length, add64, sub64,
  arith,
}
use uol_ms_project.Prelude.Exec.{continue, Exec}
use uol_ms_project.Error.{err, stuck, Result, HeapError, ok, panic}
use uol_ms_project.Placement.{HeapConfig, Files}
use uol_ms_project.Placement.Bucket.{Extent, BucketPlacement, State}
use uol_ms_project.Io.{File, BlockIo}
use uol_ms_project.Placement.Bucket.Grant.{
  grant_fuel, has_room, split_victim, find_extent, grow_file, section_base,
}
use uol_ms_project.Placement.Bucket.Logs.{section_base-eq, section-le, section_base_lem}
use uol_ms_project.Data.Files.{ensure_alloc}
use uol_ms_project.Data.{PagedFile}

-- A grant number where the search ends behind the file, near enough for the fuel.
record IsEnd (count grant_number : ℕ) : Type 0 where
  pub last : ℕ
  pub from : grant_number ≤ last
  pub upto : last < grant_number + (3 * count + 3)
  pub past : count ≤ last - section_base last
  pub base : section_base last ≤ last

-- In the section that begins at the power of two `2 ^ k`, above the number of buckets.
in_section :
    (count grant_number k : ℕ)
    → count < 2 ^ k
    → grant_number ≤ 2 ^ k + count
    → 2 ^ k + count < grant_number + (3 * count + 3)
    → 2 ^ k + count < 2 ^ 64
    → IsEnd count grant_number
in_section count grant_number k large from upto small =
    let base : section_base (2 ^ k + count) ≡ 2 ^ k =
      section_base-eq (2 ^ k + count) k (omega arith) (omega arith) small in
    record {
      last = 2 ^ k + count;
      from = from;
      upto = upto;
      past = omega (arith, base);
      base = omega (arith, base);
    }

IsEnd-exists :
    (count grant_number : ℕ)
    → 1 ≤ grant_number
    → grant_number + (3 * count + 3) < 2 ^ 64
    → IsEnd count grant_number
IsEnd-exists zero grant_number pos small =
    let s = section_base_lem grant_number pos (omega arith) in
    record {
      last = grant_number;
      from = omega arith;
      upto = omega arith;
      past = omega arith;
      base = s.from;
    }
IsEnd-exists (suc c) grant_number pos small =
    let count = suc c in
    let b = section_base_lem count (omega arith) (omega arith) in
    let s = section_base_lem grant_number pos (omega arith) in
    elim (Bool-cases (ltb (section_base count) (section_base grant_number))) [
      | inl later ↦
          let twice = section-le count grant_number _ _ b s (ltb→lt _ _ later) in
          elim (Bool-cases (leb grant_number (section_base grant_number + count))) [
            | inl near ↦
                in_section count grant_number s.log (omega (arith, s.base_eq, b.below, twice))
                  (omega (arith, s.base_eq, leb→le _ _ near)) (omega (arith, s.base_eq, s.from))
                  (omega (arith, s.base_eq, s.from))
            | inr far ↦ record {
              last = grant_number;
              from = omega arith;
              upto = omega arith;
              past = omega (arith, leb→lt _ _ far);
              base = s.from;
            }
          ]
      | inr sooner ↦
          let next : 2 ^ suc b.log ≡ 2 * section_base count = omega (arith, b.base_eq) in
          in_section count grant_number (suc b.log) (omega (arith, next, b.below))
            (omega (arith, next, s.below, ltb→le _ _ sooner)) (omega (arith, next, b.from))
            (omega (arith, next, b.from))
    ]

-- At the end the search has gone past the buckets.
before_end :
    (g last count : ℕ)
    → g ≤ last
    → last < 2 ^ 64
    → section_base last ≤ last
    → count ≤ last - section_base last
    → leb count (sub64 g (section_base g)) ≡ false
    → g < last
before_end g last count from small base past inside = elim (Bool-cases (ltb g last)) [
  | inl less ↦ ltb→lt g last less
  | inr no_less ↦
      let equal : g ≡ last = omega (arith, ltb→le g last no_less) in
      absurd (
        omega (
          arith,
          leb→lt _ _ inside,
          ap (λ n. sub64 n (section_base n)) equal,
          sub64-eq last (section_base last) base small,
          past,
        ))
]

-- The method did not run out of fuel.
abbrev pub Ends : {A : Type 0} → Result A → Type 0
Ends r = r ≢ err stuck

abbrev error_of : {A : Type 0} → Result A → HeapError
error_of (ok a) = panic
error_of (err e) = e

Ends-continue :
    {S A B : Type 0} (f : A → Exec S B) (r : Result A) (t : S)
    → Ends r
    → ((a : A) (u : S) → Ends (f a u).0)
    → Ends (continue f r t).0
Ends-continue f (ok a) t h k = k a t
Ends-continue f (err e) t h k = λ q. h (ap err (ap error_of q))

Ends-ok : {A : Type 0} (a : A) → Ends (ok a)
Ends-ok a = λ q. ground (arith, q)

-- The system's answer to an allocation is one of its own errors.
abbrev pub NoStuck : BlockIo → Type 0
NoStuck io =
    (off len : ℕ) (file : File) (s : BlockIo.Io io)
    → Ends (BlockIo.fallocate io off len (file, s)).0

module _ (io : BlockIo) (no_stuck : NoStuck io) where
  ensure_alloc-Ends :
      (upto chunk : ℕ) (paged : PagedFile) (s : BlockIo.Io io)
      → Ends (ensure_alloc io upto chunk (paged, s)).0
  unfolding ensure_alloc
  ensure_alloc-Ends upto chunk paged s = elim (Bool-cases (leb upto paged.allocated_end)) [
    | inl enough ↦ rw enough (Ends-ok tt)
    | inr short ↦
        rw short
          (Ends-continue _ _ _ (no_stuck paged.allocated_end _ paged.file s) (λ u t. Ends-ok tt))
  ]

  grow_file-Ends :
      (config : HeapConfig) (need : ℕ) (s : State io) → Ends (grow_file io config need s).0
  unfolding grow_file
  grow_file-Ends config need (p, files) =
      Ends-continue _ _ _
        (ensure_alloc-Ends (add64 p.file_size (max need config.growth)) (max need config.growth)
          files.data_file.paged_file files.io_state)
        (λ u t. Ends-ok _)

  split_victim-Ends :
      (need index : ℕ) (next : Exec (State io) Extent) (victim : Option Extent) (s : State io)
      → Ends (next s).0
      → Ends (split_victim io need index next victim s).0
  unfolding split_victim
  split_victim-Ends need index next none s h = λ q. ground (arith, q)
  split_victim-Ends need index next (some victim) s h = elim (Bool-cases (has_room need victim)) [
    | inl room ↦ rw room (Ends-ok _)
    | inr none_left ↦ rw none_left h
  ]

  -- While the search has not reached its end.
  search-Ends :
      (fuel last : ℕ) (config : HeapConfig) (need : ℕ) (p : BucketPlacement) (files : Files io)
      → p.extent_grant_count ≤ last
      → last < p.extent_grant_count + fuel
      → section_base last ≤ last
      → length p.states ≤ last - section_base last
      → last + 1 < 2 ^ 64
      → Ends (find_extent io fuel config need (p, files)).0
  unfolding find_extent
  search-Ends zero last config need p files from upto base past small = absurd (omega arith)
  search-Ends (suc fuel) last config need p files from upto base past small =
      let g = p.extent_grant_count in
      let counted : add64 g 1 ≡ g + 1 = omega arith in
      elim (Bool-cases (g == 0)) [
        | inl first ↦ rw first (Ends-ok _)
        | inr later ↦
            rw later (elim (Bool-cases (leb (length p.states) (sub64 g (section_base g)))) [
              | inl behind ↦ rw behind (grow_file-Ends config need _)
              | inr inside ↦
                  let inner : g < last =
                    before_end g last (length p.states) from (omega arith) base past inside in
                  rw inside (
                    split_victim-Ends need _ _ _ _ (
                      search-Ends fuel last config need
                        (record p { extent_grant_count = add64 g 1 }) files (omega (arith, counted))
                        (omega (arith, counted)) base past small))
            ])
      ]

  -- Where the system's allocation does not answer with the model's own error `stuck`, the search for
  -- an extent does not end for want of fuel: three attempts for each bucket, and four, are enough.
  -- The grant numbers stay below 2 ^ 64.
  pub find_extent-Ends :
      (config : HeapConfig) (need : ℕ) (p : BucketPlacement) (files : Files io)
      → p.extent_grant_count + grant_fuel io p + 1 < 2 ^ 64
      → Ends (find_extent io (grant_fuel io p) config need (p, files)).0
  find_extent-Ends config need p files small =
      let e =
        IsEnd-exists (length p.states) (max 1 p.extent_grant_count) (omega arith) (omega arith) in
      search-Ends (grant_fuel io p) e.last config need p files (omega (arith, e.from))
        (omega (arith, e.upto)) e.base e.past (omega (arith, e.upto))
