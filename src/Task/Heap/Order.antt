-- ===== src/Task/Heap/Order.antt =====
-- The order that a heap keeps, for a `Less` that does not panic on the elements at hand.

use testground.Base.{
  ℕ, zero, suc, ◌<◌, ◌≡◌, Bool, true, false, List, arith, length, ◌==◌, if◌then◌else◌, Bool-cases,
  inl, inr,
}
use testground.Base.Errors.{ok}
use testground.Base.Arrays.{
  entry, exchange, get_elem?-entry, entry-exchange, exchange-perm, perm_length,
}
use testground.Task.Heap.{Run, less_at, swap, parent}

-- On elements that fit, `Less` returns a strict order whose negation is transitive.
pub record Precedence {A : Type 0} (less : A → A → Run Bool) : Type 1 where
  pub Fits : A → Type 0
  pub lt : A → A → Bool
  pub runs : (x y : A) → Fits x → Fits y → less x y ≡ ok (lt x y)
  pub asym : (x y : A) → lt x y ≡ true → lt y x ≡ false
  pub trans : (x y z : A) → lt y x ≡ false → lt z y ≡ false → lt z x ≡ false

module _ {A : Type 0} (less : A → A → Run Bool) (order : Precedence less) (fallback : A) where
  open order use {Fits, lt}

  abbrev at : List A → ℕ → A
  at xs i = entry fallback xs i

  -- `x` may stand before `y`
  abbrev pub Le : A → A → Type 0
  Le x y = lt y x ≡ false

  abbrev pub AllFit : List A → Type 0
  AllFit xs = (i : ℕ) → i < length xs → Fits (entry fallback xs i)

  -- among the first `n` elements, no child comes before its parent
  abbrev pub IsHeap : ℕ → List A → Type 0
  IsHeap n xs = (c : ℕ) → 0 < c → c < n → Le (entry fallback xs (parent c)) (entry fallback xs c)

  pub less_at-ok :
      (xs : List A) (i j : ℕ)
      → AllFit xs
      → i < length xs
      → j < length xs
      → less_at less xs i j ≡ ok (lt (entry fallback xs i) (entry fallback xs j))
  unfolding less_at
  less_at-ok xs i j fit hi hj =
      rw (get_elem?-entry fallback xs i hi, get_elem?-entry fallback xs j hj)
        (order.runs _ _ (fit i hi) (fit j hj))

  pub swap-ok :
      (xs : List A) (i j : ℕ)
      → i < length xs
      → j < length xs
      → swap xs i j ≡ ok (exchange fallback xs i j)
  unfolding swap exchange
  swap-ok xs i j hi hj = rw (get_elem?-entry fallback xs i hi, get_elem?-entry fallback xs j hj)

  pub exchange-AllFit :
      (xs : List A) (i j : ℕ)
      → i < length xs
      → j < length xs
      → AllFit xs
      → AllFit (exchange fallback xs i j)
  exchange-AllFit xs i j hi hj fit c hc =
      let c-in : c < length xs = omega (arith, perm_length (exchange-perm fallback xs i j hi hj)) in
      rw (entry-exchange fallback xs i j hi hj c)
        (Fits-if (j == c) (fit i hi) (Fits-if (i == c) (fit j hj) (fit c c-in)))
    where
      Fits-if : (b : Bool) {x y : A} → Fits x → Fits y → Fits (if b then x else y)
      Fits-if true f g = f
      Fits-if false f g = g

  pub Le_refl : (x : A) → Le x x
  Le_refl x = elim (Bool-cases (lt x x)) [ inl below ↦ order.asym x x below | inr same ↦ same ]

  root_first_below :
      (k n : ℕ) (xs : List A) (i : ℕ)
      → IsHeap n xs
      → i < k
      → i < n
      → Le (entry fallback xs 0) (entry fallback xs i)
  root_first_below zero n xs i h f p = absurd (omega arith)
  root_first_below (suc k) n xs zero h f p = Le_refl (entry fallback xs 0)
  root_first_below (suc k) n xs (suc i) h f p =
      order.trans (entry fallback xs 0) (entry fallback xs (parent (suc i)))
        (entry fallback xs (suc i))
        (root_first_below k n xs (parent (suc i)) h (omega arith) (omega arith))
        (h (suc i) (omega arith) p)

  -- Nothing in a heap comes before its root.
  pub root_first :
      (n : ℕ) (xs : List A) (i : ℕ)
      → IsHeap n xs
      → i < n
      → Le (entry fallback xs 0) (entry fallback xs i)
  root_first n xs i h p = root_first_below (suc i) n xs i h (omega arith) p
