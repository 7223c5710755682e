-- ===== src/Task/Heap/Up.antt =====
-- `up` restores the order when only the element at `j` may be out of place above.
use mathlib.Core.List.{Perm}
use mathlib.Core.List.Perm
use native.Mathlib.Decide.{ℕ_discrete}
use testground.Base.{
  ◌∙◌, ℕ, zero, suc, ◌<◌, ◌≡◌, ◌≢◌, Bool, true, false, List, arith, length, ◌==◌, if◌then◌else◌,
  Bool-cases, inl, inr,
}
use testground.Base.Errors.{ok}
use testground.Base.Arrays.{entry, exchange, entry-exchange, exchange-perm, length-exchange}
use testground.Task.Heap.{Run, parent, up}
use testground.Task.Heap.Order.{Precedence, AllFit, IsHeap, less_at-ok, swap-ok, exchange-AllFit}

module _ {A : Type 0} (less : A → A → Run Bool) (order : Precedence less) (fallback : A) where
  open order use {Fits, lt}

  -- every edge but the one above `j` is in order, and so are the edges that pass over `j`
  pub record UpInv (xs : List A) (j : ℕ) : Type 0 where
    pub inside : j < length xs
    pub fit : AllFit less order fallback xs
    pub edges :
        (c : ℕ)
        → 0 < c
        → c < length xs
        → c ≢ j
        → lt (entry fallback xs c) (entry fallback xs (parent c)) ≡ false
    pub bridged :
        (c : ℕ)
        → 0 < c
        → c < length xs
        → parent c ≡ j
        → 0 < j
        → lt (entry fallback xs c) (entry fallback xs (parent j)) ≡ false

  module _ (xs : List A) (j : ℕ) (inv : UpInv xs j) (pos : 0 < j)
      (above : lt (entry fallback xs j) (entry fallback xs (parent j)) ≡ true) where
    abbrev risen : List A
    risen = exchange fallback xs (parent j) j

    parent-inside : parent j < length xs
    parent-inside = omega (arith, inv.inside)

    risen-at :
        (c : ℕ)
        → entry fallback risen c ≡ (
            if j == c
            then entry fallback xs (parent j)
            else if parent j == c
            then entry fallback xs j
            else entry fallback xs c)
    risen-at c = entry-exchange fallback xs (parent j) j parent-inside inv.inside c

    risen-edges :
        (c : ℕ)
        → 0 < c
        → c < length xs
        → c ≢ parent j
        → lt (entry fallback risen c) (entry fallback risen (parent c)) ≡ false
    risen-edges c p q h = ground (
      arith,
      risen-at c,
      risen-at (parent c),
      inv.edges c,
      inv.bridged c,
      order.asym (entry fallback xs j) (entry fallback xs (parent j)) above,
      order.trans (entry fallback xs j) (entry fallback xs (parent j)) (entry fallback xs c),
    )

    risen-bridged :
        (c : ℕ)
        → 0 < c
        → c < length xs
        → parent c ≡ parent j
        → 0 < parent j
        → lt (entry fallback risen c) (entry fallback risen (parent (parent j))) ≡ false
    risen-bridged c p q h r = ground (
      arith,
      risen-at c,
      risen-at (parent (parent j)),
      inv.edges c,
      inv.edges (parent j),
      order.trans (entry fallback xs (parent (parent j))) (entry fallback xs (parent j))
          (entry fallback xs c),
    )

    risen-UpInv : UpInv risen (parent j)
    risen-UpInv =
        let same = length-exchange fallback xs (parent j) j in
        record {
          inside = omega (arith, same, parent-inside);
          fit =
              exchange-AllFit less order fallback xs (parent j) j parent-inside inv.inside inv.fit;
          edges = λ c p q h. risen-edges c p (omega (arith, same)) h;
          bridged = λ c p q h r. risen-bridged c p (omega (arith, same)) h r;
        }

  up-root : (f : ℕ) (xs : List A) (j : ℕ) → j ≡ 0 → up less (suc f) xs j ≡ ok xs
  unfolding up
  up-root f xs j h = ground arith

  module _ (f : ℕ) (xs : List A) (j : ℕ) (inv : UpInv xs j) (pos : 0 < j) where
    up-stays :
        lt (entry fallback xs j) (entry fallback xs (parent j)) ≡ false
        → up less (suc f) xs j ≡ ok xs
    unfolding up
    up-stays h = ground (
      arith,
      less_at-ok less order fallback xs j (parent j) inv.fit inv.inside (omega (arith, inv.inside)),
    )

    up-rises :
        lt (entry fallback xs j) (entry fallback xs (parent j)) ≡ true
        → up less (suc f) xs j ≡ up less f (exchange fallback xs (parent j) j) (parent j)
    unfolding up
    up-rises h = ground (
      arith,
      less_at-ok less order fallback xs j (parent j) inv.fit inv.inside (omega (arith, inv.inside)),
      swap-ok less order fallback xs (parent j) j (omega (arith, inv.inside)) inv.inside,
    )

  -- an element that is not before its parent, or has none, is in place
  settled :
      (xs : List A) (j : ℕ)
      → UpInv xs j
      → (0 < j → lt (entry fallback xs j) (entry fallback xs (parent j)) ≡ false)
      → IsHeap less order fallback (length xs) xs
  settled xs j inv h c p q = elim (ℕ_discrete c j) [
    | yes e ↦ rw e (h (rw e at p))
    | no e ↦ inv.edges c p q e
  ]

  -- `up` returns, within `j + 1` rounds, a heap of the same elements.
  pub up_restores :
      (f : ℕ) (xs : List A) (j : ℕ)
      → j < f
      → UpInv xs j
      → (ys : List A) × (up less f xs j ≡ ok ys)
        × IsHeap less order fallback (length ys) ys
        × AllFit less order fallback ys
        × Perm ys xs
  up_restores zero xs j k inv = absurd (omega arith)
  up_restores (suc f) xs j k inv = elim (ℕ_discrete j 0) [
    | yes root ↦
        (xs, up-root f xs j root, settled xs j inv (λ p. absurd (omega arith)), inv.fit, Perm.rfl)
    | no below ↦
        let pos : 0 < j = omega arith in
        elim (Bool-cases (lt (entry fallback xs j) (entry fallback xs (parent j)))) [
          | inl above ↦
              let (ys, ran, heap, fit, same) =
                up_restores f (risen xs j inv pos above) (parent j) (omega arith)
                  (risen-UpInv xs j inv pos above) in
              (
                ys,
                up-rises f xs j inv pos above ∙ ran,
                heap,
                fit,
                Perm.trans same
                    (exchange-perm fallback xs (parent j) j (omega (arith, inv.inside)) inv.inside),
              )
          | inr placed ↦ (
            xs,
            up-stays f xs j inv pos placed,
            settled xs j inv (λ p. placed),
            inv.fit,
            Perm.rfl,
          )
        ]
  ]
