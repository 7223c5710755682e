-- ===== src/Base/Errors.antt =====
-- A Go function that returns `(A, error)` and may panic.
use mathlib.Core.Path.{◌≡◌, refl}
use mathlib.Core.Bool.{Bool, true, false}

-- a value with a nil error, a non-nil error, or a run-time panic
pub data Fallible {ℓ κ} (E : Type κ) (A : Type ℓ) : Type (ℓ ⊔ κ) where
  ok : A → Fallible E A
  err : E → Fallible E A
  panic : Fallible E A

infixl 5 ◌>>=◌ ◌>>◌
abbrev pub ◌>>=◌ {ℓ κ ι} :
    {E : Type κ} {A : Type ℓ} {B : Type ι} → Fallible E A → (A → Fallible E B) → Fallible E B
ok a >>= f = f a
err e >>= f = err e
panic >>= f = panic

abbrev pub ◌>>◌ {ℓ κ} :
    {E : Type κ} {B : Type ℓ} → Fallible E (Unit {0}) → Fallible E B → Fallible E B
m >> k = m >>= λ _. k

-- `if cond { return e }`
abbrev pub fail_if {κ} : {E : Type κ} → Bool → E → Fallible E (Unit {0})
fail_if true e = err e
fail_if false e = ok tt

-- the steps before a successful end succeeded
pub >>=-eq-ok {ℓ κ ι} :
    {A : Type ℓ} {B : Type ι} {E : Type κ} (first : Fallible E A) (then_do : A → Fallible E B)
    {last : B} (ends : (first >>= then_do) ≡ ok last)
    → (mid : A) × (first ≡ ok mid) × (then_do mid ≡ ok last)
>>=-eq-ok panic then_do ends = cc ends
>>=-eq-ok (err cause) then_do ends = cc ends
>>=-eq-ok (ok mid) then_do ends = (mid, refl, ends)

pub fail_if-ok {κ} : {E : Type κ} (b : Bool) (e : E) → fail_if b e ≡ ok tt → b ≡ false
fail_if-ok true e h = cc
fail_if-ok false e h = refl
