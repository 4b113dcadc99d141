-- ===== src/Data/Stage/Parts.antt =====
-- The searches of `stage` through the staged writes, and the bytes of its parts.
use uol_ms_project.Prelude.{
  ℕ, ◌≤◌, ◌≡◌, ◌⊎◌, inl, inr, refl, sym, ap, subst, ◌∙◌, true, false, Bool-cases, Option,
  Option-cases, none, some, List, [], ◌∷◌, ◌++◌, All, ◌==◌, ==→eq, arith,
}
use mathlib.Core.List.{append-nil, append_assoc}
use uol_ms_project.Bytes.{Bytes}
use uol_ms_project.Format.{page_up}
use uol_ms_project.Io.AlignedBuf
use uol_ms_project.Io.AlignedBuf.{AlignedBuf}
use uol_ms_project.Data.{StagedWrite, base, end_of}
use uol_ms_project.Data.Stage.{
  joined, extend_parts, overlaps, any_overlap, Split, prepend, ending_at,
}

pub content-extend_from_slice :
    (bytes : Bytes) (buffer : AlignedBuf)
    → (AlignedBuf.extend_from_slice bytes buffer).content ≡ buffer.content ++ bytes
unfolding AlignedBuf.extend_from_slice
content-extend_from_slice bytes buffer = refl

pub content-extend_parts :
    (parts : List Bytes) (buffer : AlignedBuf)
    → (extend_parts parts buffer).content ≡ buffer.content ++ joined parts
content-extend_parts [] buffer = sym (append-nil buffer.content)
content-extend_parts (part ∷ parts) buffer =
    content-extend_parts parts (AlignedBuf.extend_from_slice part buffer)
    ∙ ap (λ t. t ++ joined parts) (content-extend_from_slice part buffer)
    ∙ append_assoc buffer.content part (joined parts)

-- The search finds an open staged write that ends where the new bytes begin.
pub ending_at_lem :
    (off : ℕ) (ws : List StagedWrite) (found : Split)
    → ending_at off ws ≡ some found
    → (ws ≡ found.before ++ found.at ∷ found.behind) × (end_of found.at ≡ off)
unfolding ending_at prepend
ending_at_lem off [] found e = ground (arith, e)
ending_at_lem off (w ∷ ws) found e = elim (Bool-cases (end_of w == off)) [
  | inl here ↦
      let result : ending_at off (w ∷ ws) ≡ some first = rw here refl in
      let hit = ap chosen (sym result ∙ e) in subst Found hit (refl, ==→eq _ _ here)
  | inr there ↦ elim (Option-cases (ending_at off ws)) [
    | inl nothing ↦
        let result : ending_at off (w ∷ ws) ≡ none = rw (there, nothing) refl in
        ground (arith, sym result ∙ e)
    | inr (s, eq) ↦
        let rest = ending_at_lem off ws s eq in
        let result : ending_at off (w ∷ ws) ≡ prepend w (some s) = rw (there, eq) refl in
        let hit = ap chosen (sym result ∙ e) in subst Found hit (ap (λ t. w ∷ t) rest.0, rest.1)
  ]
]
  where
    first : Split
    first = record { before = []; at = w; behind = ws }

    Found : Split → Type 0
    Found s = (w ∷ ws ≡ s.before ++ s.at ∷ s.behind) × (end_of s.at ≡ off)

    chosen : Option Split → Split
    chosen none = first
    chosen (some s) = s

-- A staged write whose pages do not meet those from `from` to `to`.
abbrev pub Clear : ℕ → ℕ → StagedWrite → Type 0
Clear from to w = (to ≤ base w) ⊎ (page_up (end_of w) ≤ from)

pub any_overlap-Clear :
    (from to : ℕ) (ws : List StagedWrite) → any_overlap from to ws ≡ false → All (Clear from to) ws
any_overlap-Clear from to [] e = tt
any_overlap-Clear from to (w ∷ ws) e = elim (Bool-cases (overlaps from to w)) [
  | inl meets ↦ absurd_bool (sym (rw meets refl) ∙ e)
  | inr apart ↦ (clear apart, any_overlap-Clear from to ws (sym (rw apart refl) ∙ e))
]
  where
    absurd_bool : true ≡ false → All (Clear from to) (w ∷ ws)
    absurd_bool q = ground (arith, q)

    clear : overlaps from to w ≡ false → Clear from to w
    clear q = ground (arith, q)
