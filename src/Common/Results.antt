-- ===== src/Common/Results.antt =====
-- Go's `(value, error)` results: an error ends the computation.
use mathlib.Core.Path.{◌≡◌, refl}
use mathlib.Core.Bool.{Bool, true, false}
use mathlib.Core.Logic.{◌⊎◌, inl, inr}

pub data Result {ℓ} (E : Type ℓ) (A : Type ℓ) : Type ℓ where
  ok : A → Result E A
  err : E → Result E A

module _ {ℓ} {E : Type ℓ} where
  infixl 5 ◌>>=◌ ◌>>◌
  -- `value, err := m; if err != nil { return err }`
  abbrev pub ◌>>=◌ : {A B : Type ℓ} → Result E A → (A → Result E B) → Result E B
  err e >>= next = err e
  ok value >>= next = next value

  abbrev pub ◌>>◌ : {A B : Type ℓ} → Result E A → Result E B → Result E B
  err e >> rest = err e
  ok value >> rest = rest

  -- an error under another sentinel
  abbrev pub wrap : {F : Type ℓ} {A : Type ℓ} → (E → F) → Result E A → Result F A
  wrap f (ok a) = ok a
  wrap f (err e) = err (f e)

  pub Result-cases :
      {A : Type ℓ} (r : Result E A) → ((a : A) × (r ≡ ok a)) ⊎ ((e : E) × (r ≡ err e))
  Result-cases (ok a) = inl (a, refl)
  Result-cases (err e) = inr (e, refl)

  -- what is known where a chain succeeds
  pub >>=-eq-ok :
      {A B : Type ℓ} (first : Result E A) (next : A → Result E B) {b : B}
      (done : (first >>= next) ≡ ok b)
      → (value : A) × (first ≡ ok value) × (next value ≡ ok b)
  >>=-eq-ok (err e) next done = cc
  >>=-eq-ok (ok value) next done = (value, refl, done)

  pub >>-eq-ok :
      {A B : Type ℓ} (first : Result E A) (rest : Result E B) {b : B}
      (done : (first >> rest) ≡ ok b)
      → (value : A) × (first ≡ ok value) × (rest ≡ ok b)
  >>-eq-ok (err e) rest done = cc
  >>-eq-ok (ok value) rest done = (value, refl, done)

  pub wrap-eq-ok : {F A : Type ℓ} (f : E → F) (r : Result E A) {a : A} → wrap f r ≡ ok a → r ≡ ok a
  wrap-eq-ok f (ok x) h = cc
  wrap-eq-ok f (err e) h = cc

-- `if bad { return err }`
abbrev pub refuse_if : {E : Type 0} → Bool → E → Result E (Unit {0})
refuse_if false e = ok tt
refuse_if true e = err e

pub refuse_if-eq-ok :
    {E : Type 0} (b : Bool) (e : E) {u : Unit {0}} → refuse_if b e ≡ ok u → b ≡ false
refuse_if-eq-ok true e h = cc
refuse_if-eq-ok false e h = refl
