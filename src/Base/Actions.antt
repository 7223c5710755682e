-- ===== src/Base/Actions.antt =====
-- Code that reads and writes a state, returns `(A, error)` and may panic. What was written before
-- an error or a panic stays written.
use mathlib.Core.Path.{◌≡◌, refl}
use testground.Base.Errors.{Fallible, ok, err, panic}

abbrev pub Action {ℓ κ ι} : Type ι → Type κ → Type ℓ → Type (ℓ ⊔ κ ⊔ ι)
Action S E A = S → Fallible E A × S

module _ {ℓ κ ι} {S : Type ι} {E : Type κ} {A : Type ℓ} where
  abbrev pub pure : A → Action S E A
  pure a s = (ok a, s)

  abbrev pub raise : E → Action S E A
  raise e s = (err e, s)

  abbrev pub lift : Fallible E A → Action S E A
  lift r s = (r, s)

module _ {ℓ κ ι μ} {S : Type ι} {E : Type κ} {A : Type ℓ} {B : Type μ} where
  abbrev pub continue : Fallible E A → (A → Action S E B) → Action S E B
  continue (ok a) f s = f a s
  continue (err e) f s = (err e, s)
  continue panic f s = (panic, s)

  infixl 5 ◌>>=◌ ◌>>◌
  abbrev pub ◌>>=◌ : Action S E A → (A → Action S E B) → Action S E B
  ◌>>=◌ m f s = let (r, s') = m s in continue r f s'

  abbrev pub ◌>>◌ : Action S E A → Action S E B → Action S E B
  m >> n = m >>= λ _. n

  -- A step that ends well gave a value to the rest.
  pub continue-ends :
      (r : Fallible E A) (f : A → Action S E B) (s : S) {b : B} {t : S}
      → ◌≡◌ {A = Fallible E B × S} (continue r f s) (ok b, t)
      → (a : A) × (r ≡ ok a) × ◌≡◌ {A = Fallible E B × S} (f a s) (ok b, t)
  continue-ends (ok a) f s h = (a, refl, h)
  continue-ends (err e) f s h = cc
  continue-ends panic f s h = cc

  -- A sequence that ends well ran both of its parts.
  pub >>=-ends :
      (m : Action S E A) (f : A → Action S E B) (s : S) {b : B} {t : S}
      → ◌≡◌ {A = Fallible E B × S} ((m >>= f) s) (ok b, t)
      → (a : A) × ((m s).0 ≡ ok a) × ◌≡◌ {A = Fallible E B × S} (f a (m s).1) (ok b, t)
  >>=-ends m f s h = continue-ends (m s).0 f (m s).1 h
