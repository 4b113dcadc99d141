-- ===== src/Prelude/Exec.antt =====
-- Methods that change an object and may return an error: what was written before the error stays
-- written, so the state comes back beside the error too. `Returns` is total correctness: the
-- method gives a result, and the result and the state satisfy a postcondition.
use mathlib.Core.Path.{◌≡◌, refl, ap, ◌∙◌}
use uol_ms_project.Error.{HeapError, Result, ok, err}

abbrev pub Exec {ℓ κ} : Type ℓ → Type κ → Type (ℓ ⊔ κ)
Exec S A = S → Result A × S

module _ {ℓ κ} {S : Type ℓ} {A : Type κ} where
  abbrev pub pure : A → Exec S A
  pure a s = (ok a, s)

  abbrev pub raise : HeapError → Exec S A
  raise e s = (err e, s)

  abbrev pub gets : (S → A) → Exec S A
  gets f s = (ok (f s), s)

  abbrev pub lift : Result A → Exec S A
  lift r s = (r, s)

abbrev pub modify {ℓ} : {S : Type ℓ} → (S → S) → Exec S (Unit {0})
modify f s = (ok tt, f s)

module _ {ℓ κ ν} {S : Type ℓ} {A : Type κ} {B : Type ν} where
  abbrev pub continue : (A → Exec S B) → Result A → Exec S B
  continue f (ok a) s = f a s
  continue f (err e) s = (err e, s)

  infixl 5 ◌>>=◌ ◌>>◌
  abbrev pub ◌>>=◌ : Exec S A → (A → Exec S B) → Exec S B
  ◌>>=◌ m f s = continue f (m s).0 (m s).1

  abbrev pub ◌>>◌ : Exec S A → Exec S B → Exec S B
  m >> n = m >>= λ _. n

-- A method of a part of an object: `get` reads the part and `put` writes it back.
module _ {ℓ κ ν} {S : Type ℓ} {T : Type κ} {A : Type ν} where
  abbrev pub zoom : (S → T) → (T → S → S) → Exec T A → Exec S A
  zoom get put m s = ((m (get s)).0, put (m (get s)).1 s)

module _ {ℓ κ ν} {S : Type ℓ} {A : Type κ} where
  -- The method returned `value` and left `state`, and the two satisfy `P`.
  pub record Returns (P : A → S → Type ν) (r : Result A × S) : Type (ℓ ⊔ κ ⊔ ν) where
    pub value : A
    pub state : S
    pub outcome : r ≡ (ok value, state)
    pub post : P value state

  pub returns : {P : A → S → Type ν} (a : A) (s : S) → P a s → Returns P (ok a, s)
  returns a s p = record { value = a; state = s; outcome = refl; post = p }

module _ {ℓ κ ν μ τ} {S : Type ℓ} {A : Type κ} {B : Type ν} where
  pub Returns-bind :
      {P : A → S → Type μ} {Q : B → S → Type τ} (m : Exec S A) (f : A → Exec S B) {s : S}
      → Returns P (m s)
      → ((a : A) (t : S) → P a t → Returns Q (f a t))
      → Returns Q ((m >>= f) s)
  Returns-bind m f {s} h k =
      let rest = k h.value h.state h.post in
      record {
        value = rest.value;
        state = rest.state;
        outcome = ap (λ (r : Result A × S). continue f r.0 r.1) h.outcome ∙ rest.outcome;
        post = rest.post;
      }

module _ {ℓ κ ν μ} {S : Type ℓ} {A : Type κ} where
  -- A weaker postcondition.
  pub Returns-weaken :
      {P : A → S → Type ν} {Q : A → S → Type μ} (r : Result A × S)
      → Returns P r
      → ((a : A) (t : S) → P a t → Q a t)
      → Returns Q r
  Returns-weaken r h k = record {
    value = h.value;
    state = h.state;
    outcome = h.outcome;
    post = k h.value h.state h.post;
  }

module _ {ℓ κ} {S : Type ℓ} {A : Type κ} where
  -- The method failed with `error`, and the state that it left satisfies `P`.
  pub record Raises {ν} (error : HeapError) (P : S → Type ν) (r : Result A × S)
      : Type (ℓ ⊔ κ ⊔ ν) where
    pub state : S
    pub outcome : r ≡ (err error, state)
    pub post : P state

module _ {ℓ κ ν μ τ} {S : Type ℓ} {A : Type κ} {B : Type ν} where
  -- A failure behind a method that returns.
  pub Raises-bind :
      {P : A → S → Type μ} {error : HeapError} {Q : S → Type τ} (m : Exec S A) (f : A → Exec S B)
      {s : S}
      → Returns P (m s)
      → ((a : A) (t : S) → P a t → Raises error Q (f a t))
      → Raises error Q ((m >>= f) s)
  Raises-bind m f {s} h k =
      let rest = k h.value h.state h.post in
      record {
        state = rest.state;
        outcome = ap (λ (r : Result A × S). continue f r.0 r.1) h.outcome ∙ rest.outcome;
        post = rest.post;
      }
