-- ===== src/Task/Heap/Down.antt =====
-- `down` restores the order of the first `n` elements when only the one at `i` may be out of place
-- below.
use mathlib.Core.List.{Perm}
use mathlib.Core.List.Perm
use native.Mathlib.Decide.{ℕ_discrete, dec_lt}
use testground.Base.{
  ◌∙◌, ℕ, zero, suc, ◌+◌, ◌*◌, ◌<◌, ◌≤◌, ◌≡◌, ◌≢◌, refl, Bool, true, false, List, arith, length,
  ◌==◌, if◌then◌else◌, Bool-cases, inl, inr,
}
use testground.Base.Errors.{ok}
use testground.Base.Arrays.{entry, exchange, entry-exchange, exchange-perm, length-exchange}
use testground.Task.Heap.{Run, parent, less_at, choose_child, down}
use testground.Task.Heap.Order.{Precedence, AllFit, IsHeap, less_at-ok, swap-ok, exchange-AllFit}

module _ {A : Type 0} (less : A → A → Run Bool) (order : Precedence less) (fallback : A) where
  open order use {Fits, lt}

  -- every edge but those below `i` is in order, and so are the edges that pass over `i`
  pub record DownInv (n : ℕ) (xs : List A) (i : ℕ) : Type 0 where
    pub within : n ≤ length xs
    pub fit : AllFit less order fallback xs
    pub edges :
        (c : ℕ)
        → 0 < c
        → c < n
        → parent c ≢ i
        → lt (entry fallback xs c) (entry fallback xs (parent c)) ≡ false
    pub bridged :
        (c : ℕ)
        → 0 < c
        → c < n
        → parent c ≡ i
        → 0 < i
        → lt (entry fallback xs c) (entry fallback xs (parent i)) ≡ false

  -- `j` is a child of `i` that its sibling does not come before
  pub record Chosen (n : ℕ) (xs : List A) (i j : ℕ) : Type 0 where
    pub child : parent j ≡ i
    pub positive : 0 < j
    pub inside : j < n
    pub first :
        (c : ℕ)
        → 0 < c
        → c < n
        → parent c ≡ i
        → lt (entry fallback xs c) (entry fallback xs j) ≡ false

  Le_self : (x : A) → lt x x ≡ false
  Le_self x = elim (Bool-cases (lt x x)) [ inl below ↦ order.asym x x below | inr same ↦ same ]

  module _ (n : ℕ) (xs : List A) (i : ℕ) (inv : DownInv n xs i) (more : 2 * i + 1 < n) where
    left : ℕ
    left = 2 * i + 1

    -- the right child is chosen exactly if it exists and comes before the left one
    choose_child-Chosen : (j : ℕ) × (choose_child less xs i n ≡ ok j) × Chosen n xs i j
    unfolding choose_child
    choose_child-Chosen = elim (dec_lt (2 * i + 2) n) [
      | no alone ↦ (
        2 * i + 1,
        ground arith,
        record {
          child = omega arith;
          positive = omega arith;
          inside = more;
          first = λ c p q h.
              let same : c ≡ 2 * i + 1 = omega arith in
              rw same (Le_self (entry fallback xs (2 * i + 1)));
        },
      )
      | yes two ↦
          let compared =
            less_at-ok less order fallback xs (2 * i + 2) (2 * i + 1) inv.fit
              (omega (arith, inv.within)) (omega (arith, inv.within)) in
          elim (Bool-cases (lt (entry fallback xs (2 * i + 2)) (entry fallback xs (2 * i + 1)))) [
            | inl right ↦ (
              2 * i + 2,
              ground (arith, compared),
              record {
                child = omega arith;
                positive = omega arith;
                inside = two;
                first = λ c p q h. elim (ℕ_discrete c (2 * i + 2)) [
                  | yes same ↦ rw same (Le_self (entry fallback xs (2 * i + 2)))
                  | no other ↦
                      let same : c ≡ 2 * i + 1 = omega arith in rw same (order.asym _ _ right)
                ];
              },
            )
            | inr stays ↦ (
              2 * i + 1,
              ground (arith, compared),
              record {
                child = omega arith;
                positive = omega arith;
                inside = more;
                first = λ c p q h. elim (ℕ_discrete c (2 * i + 1)) [
                  | yes same ↦ rw same (Le_self (entry fallback xs (2 * i + 1)))
                  | no other ↦ let same : c ≡ 2 * i + 2 = omega arith in rw same stays
                ];
              },
            )
          ]
    ]

  module _ (n : ℕ) (xs : List A) (i j : ℕ) (inv : DownInv n xs i) (choice : Chosen n xs i j) where
    -- the order if `i` stays
    kept : lt (entry fallback xs j) (entry fallback xs i) ≡ false → IsHeap less order fallback n xs
    kept h c p q = ground (
      arith,
      inv.edges c,
      choice.first c,
      order.trans (entry fallback xs i) (entry fallback xs j) (entry fallback xs c),
    )

    module _ (below : lt (entry fallback xs j) (entry fallback xs i) ≡ true) where
      abbrev sunk : List A
      sunk = exchange fallback xs i j

      i-inside : i < length xs
      i-inside = omega (arith, inv.within, choice.inside, choice.child, choice.positive)

      j-inside : j < length xs
      j-inside = omega (arith, inv.within, choice.inside)

      sunk-at :
          (c : ℕ)
          → entry fallback sunk c ≡ (
              if j == c
              then entry fallback xs i
              else if i == c
              then entry fallback xs j
              else entry fallback xs c)
      sunk-at c = entry-exchange fallback xs i j i-inside j-inside c

      sunk-DownInv : DownInv n sunk j
      sunk-DownInv = record {
        within = omega (arith, inv.within, length-exchange fallback xs i j);
        fit = exchange-AllFit less order fallback xs i j i-inside j-inside inv.fit;
        edges = λ c p q h. ground (
          arith,
          sunk-at c,
          sunk-at (parent c),
          inv.edges c,
          inv.bridged c,
          choice.first c,
          choice.child,
          choice.positive,
          inv.bridged j,
          order.asym (entry fallback xs j) (entry fallback xs i) below,
        );
        bridged = λ c p q h r.
            ground
              (arith, sunk-at c, sunk-at (parent j), inv.edges c, choice.child, choice.positive);
      }

  down-leaf : (f n : ℕ) (xs : List A) (i : ℕ) → n ≤ 2 * i + 1 → down less (suc f) xs i n ≡ ok xs
  unfolding down
  down-leaf f n xs i h = ground arith

  module _ (f n : ℕ) (xs : List A) (i j : ℕ) (inv : DownInv n xs i) (more : 2 * i + 1 < n)
      (chose : choose_child less xs i n ≡ ok j) (choice : Chosen n xs i j) where
    compared : less_at less xs j i ≡ ok (lt (entry fallback xs j) (entry fallback xs i))
    compared =
        less_at-ok less order fallback xs j i inv.fit (omega (arith, inv.within, choice.inside))
          (omega (arith, inv.within, more))

    down-stays :
        lt (entry fallback xs j) (entry fallback xs i) ≡ false → down less (suc f) xs i n ≡ ok xs
    unfolding down
    down-stays h = ground (arith, chose, compared)

    down-sinks :
        lt (entry fallback xs j) (entry fallback xs i) ≡ true
        → down less (suc f) xs i n ≡ down less f (exchange fallback xs i j) j n
    unfolding down
    down-sinks h = ground (
      arith,
      chose,
      compared,
      swap-ok less order fallback xs i j (omega (arith, inv.within, more))
          (omega (arith, inv.within, choice.inside)),
    )

  -- `down` returns, within `n - i + 1` rounds, a list of the same elements whose first `n` are a
  -- heap, and leaves what stands behind them.
  pub down_restores :
      (f n : ℕ) (xs : List A) (i : ℕ)
      → 0 < f
      → n < f + i
      → DownInv n xs i
      → (ys : List A) × (down less f xs i n ≡ ok ys)
        × IsHeap less order fallback n ys
        × AllFit less order fallback ys
        × Perm ys xs
        × ((c : ℕ) → n ≤ c → entry fallback ys c ≡ entry fallback xs c)
  down_restores zero n xs i z k inv = absurd (omega arith)
  down_restores (suc f) n xs i z k inv = elim (dec_lt (2 * i + 1) n) [
    | no leaf ↦ (
      xs,
      down-leaf f n xs i (omega arith),
      λ c p q. inv.edges c p q (omega arith),
      inv.fit,
      Perm.rfl,
      λ c h. refl,
    )
    | yes more ↦
        let (j, chose, choice) = choose_child-Chosen n xs i inv more in
        elim (Bool-cases (lt (entry fallback xs j) (entry fallback xs i))) [
          | inr placed ↦ (
            xs,
            down-stays f n xs i j inv more chose choice placed,
            kept n xs i j inv choice placed,
            inv.fit,
            Perm.rfl,
            λ c h. refl,
          )
          | inl below ↦
              let hi = i-inside n xs i j inv choice below in
              let hj = j-inside n xs i j inv choice below in
              let (ys, ran, heap, fit, same, behind) =
                down_restores f n (sunk n xs i j inv choice below) j (omega arith)
                  (omega (arith, choice.child, choice.positive))
                  (sunk-DownInv n xs i j inv choice below) in
              (
                ys,
                down-sinks f n xs i j inv more chose choice below ∙ ran,
                heap,
                fit,
                Perm.trans same (exchange-perm fallback xs i j hi hj),
                λ c h.
                    behind c h
                    ∙ ground (arith, entry-exchange fallback xs i j hi hj c, choice.inside),
              )
        ]
  ]
