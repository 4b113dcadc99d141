-- ===== src/Recovery/Newest.antt =====
-- The newest valid version of a record wins.
use uol_ms_project.Prelude.{
  ℕ, ◌≤◌, ◌<◌, ◌≡◌, refl, sym, ap, subst, ◌∙◌, Bool, true, false, Bool-cases, inl, inr, Option,
  none, some, List, [], ◌∷◌, ◌++◌, All, ◌==◌, leb, leb→le, leb→lt, ==→eq, ==→ne, if◌then◌else◌,
  arith,
}
use mathlib.Core.List.{append_assoc, append-nil}
use uol_ms_project.Recovery.{
  Visit, Latest, Rebuild, nothing_found, latest_of, newer, visit, visit_all,
}

-- A valid record of this number.
abbrev pub IsOf : ℕ → Visit → Type 0
IsOf id v = (v.payload_valid ≡ true) × (v.header.id ≡ id)

-- The visit of the greatest version among those of `id`, and the last one with that version.
pub record IsNewest (with_bucket : Bool) (vs : List Visit) (id : ℕ) (entry : Latest) : Type 0 where
  pub before : List Visit
  pub newest : Visit
  pub behind : List Visit
  pub split : vs ≡ before ++ (newest ∷ behind)
  pub is_of : IsOf id newest
  pub is_entry : entry ≡ latest_of with_bucket newest
  pub not_newer : All (λ (v : Visit). IsOf id v → v.header.version ≤ newest.header.version) before
  pub older : All (λ (v : Visit). IsOf id v → v.header.version < newest.header.version) behind

-- What is kept for a number.
abbrev pub Keeps : Bool → List Visit → ℕ → Option Latest → Type 0
Keeps with_bucket vs id none = All (λ v. IsOf id v → ⊥) vs
Keeps with_bucket vs id (some entry) = IsNewest with_bucket vs id entry

All-snoc :
    (P : Visit → Type 0) (vs : List Visit) (v : Visit) → All P vs → P v → All P (vs ++ v ∷ [])
All-snoc P [] v h p = (p, tt)
All-snoc P (w ∷ vs) v (h, hs) p = (h, All-snoc P vs v hs p)

All-map : (P Q : Visit → Type 0) (vs : List Visit) → ((v : Visit) → P v → Q v) → All P vs → All Q vs
All-map P Q [] f h = tt
All-map P Q (v ∷ vs) f (h, hs) = (f v h, All-map P Q vs f hs)

All-join :
    (P : Visit → Type 0) (xs : List Visit) (v : Visit) (ys : List Visit)
    → All P xs
    → P v
    → All P ys
    → All P (xs ++ (v ∷ ys))
All-join P [] v ys h p k = (p, k)
All-join P (x ∷ xs) v ys (h, hs) p k = (h, All-join P xs v ys hs p k)

module _ (with_bucket : Bool) (seen : List Visit) (v : Visit) where
  -- A visit that is not of the number, or not newer.
  later-Keeps :
      (id : ℕ) (kept : Option Latest)
      → Keeps with_bucket seen id kept
      → (IsOf id v → (entry : Latest) → kept ≡ some entry → v.header.version < entry.version)
      → (IsOf id v → kept ≡ none → ⊥)
      → Keeps with_bucket (seen ++ v ∷ []) id kept
  later-Keeps id none h old new = All-snoc _ seen v h (λ of. new of refl)
  later-Keeps id (some entry) h old new = record {
    before = h.before;
    newest = h.newest;
    behind = h.behind ++ v ∷ [];
    split = ap (λ t. t ++ v ∷ []) h.split ∙ append_assoc h.before (h.newest ∷ h.behind) (v ∷ []);
    is_of = h.is_of;
    is_entry = h.is_entry;
    not_newer = h.not_newer;
    older =
        All-snoc _ h.behind v h.older
          (λ of. omega (arith, old of entry refl, ap (λ (e : Latest). e.version) h.is_entry));
  }

  -- A valid visit that is newest.
  newest-Keeps :
      All (λ (w : Visit). IsOf v.header.id w → w.header.version ≤ v.header.version) seen
      → v.payload_valid ≡ true
      → Keeps with_bucket (seen ++ v ∷ []) v.header.id (some (latest_of with_bucket v))
  newest-Keeps h valid = record {
    before = seen;
    newest = v;
    behind = [];
    split = refl;
    is_of = (valid, refl);
    is_entry = refl;
    not_newer = h;
    older = tt;
  }

  newer-Keeps :
      (kept : Option Latest)
      → Keeps with_bucket seen v.header.id kept
      → v.payload_valid ≡ true
      → Keeps with_bucket (seen ++ v ∷ []) v.header.id (some (newer (latest_of with_bucket v) kept))
  newer-Keeps none h valid =
      newest-Keeps (All-map _ _ seen (λ w no_record of. absurd (no_record of)) h) valid
  newer-Keeps (some entry) h valid = elim (Bool-cases (leb entry.version v.header.version)) [
    | inl wins ↦
        let least : h.newest.header.version ≤ v.header.version =
          omega (arith, leb→le _ _ wins, ap (λ (e : Latest). e.version) h.is_entry) in
        rw wins (
          newest-Keeps
            (subst (All (λ (w : Visit). IsOf v.header.id w → w.header.version ≤ v.header.version))
              (sym h.split)
              (All-join _ h.before h.newest h.behind
                (All-map _ _ h.before (λ w f of. omega (arith, f of, least)) h.not_newer)
                (λ of. least)
                (All-map _ _ h.behind (λ w f of. omega (arith, f of, least)) h.older)))
            valid)
    | inr loses ↦ rw loses (
        later-Keeps v.header.id (some entry) h
          (λ of e same. omega (arith, leb→lt _ _ loses, ap version_of same))
          (λ of e. ground (arith, e)))
  ]
    where
      version_of : Option Latest → ℕ
      version_of none = 0
      version_of (some e) = e.version

  either :
      (P : Option Latest → Type 0) (id : ℕ) (test : Bool) (a b : Rebuild)
      → (test ≡ true → P (a.latest_records id))
      → (test ≡ false → P (b.latest_records id))
      → P ((if test then a else b).latest_records id)
  either P id true a b f g = f refl
  either P id false a b f g = g refl

  visit-Keeps :
      (s : Rebuild)
      → ((id : ℕ) → Keeps with_bucket seen id (s.latest_records id))
      → (id : ℕ) → Keeps with_bucket (seen ++ v ∷ []) id ((visit with_bucket v s).latest_records id)
  unfolding visit
  visit-Keeps s h id =
      either (Keeps with_bucket (seen ++ v ∷ []) id) id v.payload_valid _ s
        (λ valid. elim (Bool-cases (id == v.header.id)) [
          | inl same ↦ rw same (
              subst
                (λ k.
                  Keeps with_bucket (seen ++ v ∷ []) k
                    (some (newer (latest_of with_bucket v) (s.latest_records v.header.id))))
                (sym (==→eq id v.header.id same))
                (newer-Keeps (s.latest_records v.header.id) (h v.header.id) valid))
          | inr other ↦ rw other (
              later-Keeps id (s.latest_records id) (h id)
                (λ of e same. absurd (==→ne id v.header.id other (sym of.1)))
                (λ of e. ==→ne id v.header.id other (sym of.1)))
        ])
        (λ damaged.
          later-Keeps id (s.latest_records id) (h id)
            (λ of e same. absurd (ground (arith, of.0, damaged)))
            (λ of e. ground (arith, of.0, damaged)))

visit_all-Keeps :
    (with_bucket : Bool) (vs seen : List Visit) (s : Rebuild)
    → ((id : ℕ) → Keeps with_bucket seen id (s.latest_records id))
    → (id : ℕ) → Keeps with_bucket (seen ++ vs) id ((visit_all with_bucket vs s).latest_records id)
unfolding visit_all
visit_all-Keeps with_bucket [] seen s h id =
    subst (λ t. Keeps with_bucket t id (s.latest_records id)) (sym (append-nil seen)) (h id)
visit_all-Keeps with_bucket (v ∷ vs) seen s h id =
    subst
      (λ t.
        Keeps with_bucket t id
          ((visit_all with_bucket vs (visit with_bucket v s)).latest_records id))
      (append_assoc seen (v ∷ []) vs)
      (visit_all-Keeps with_bucket vs (seen ++ v ∷ []) (visit with_bucket v s)
        (visit-Keeps with_bucket seen v s h) id)

-- When the walk of a rebuild is over, a record number is kept exactly if a record with it and a
-- valid payload was visited. The entry is then that of such a record: of the greatest version, and
-- the last visited of those with that version.
pub rebuild-Keeps :
    (with_bucket : Bool) (vs : List Visit) (id : ℕ)
    → Keeps with_bucket vs id ((visit_all with_bucket vs nothing_found).latest_records id)
rebuild-Keeps with_bucket vs id = visit_all-Keeps with_bucket vs [] nothing_found (λ k. tt) id
