-- ===== src/Base/Arrays.antt =====
-- Slices as lists under native indices: a total read with a fallback value, writes and swaps.
use native.Mathlib.Nat.{ℕ_set}
use mathlib.Core.Logic.{∥∥₁_elim}
use mathlib.Core.List.{Perm, Permᴰ}
use mathlib.Core.List.Perm
use Prim.Native.Nat.{ℕ, zero, suc, ◌<◌}
use mathlib.Core.Path.{◌≡◌, refl, ap, ◌∙◌}
use mathlib.Core.List.{List, [], ◌∷◌, ◌++◌}
use mathlib.Core.Option.{some}
use native.Mathlib.Omega.{arith}
use testground.Base.Tests.{◌==◌, if◌then◌else◌}
use testground.Base.Lists.{length, get_elem?, set, take, length-set}

module _ {ℓ} {A : Type ℓ} where
  pub perm_length : {xs ys : List A} → Perm xs ys → length xs ≡ length ys
  perm_length p = ∥∥₁_elim p (ℕ_set _ _) same
    where
      same : {xs ys : List A} → Permᴰ xs ys → length xs ≡ length ys
      same Permᴰ.nil = refl
      same (Permᴰ.cons _ q) = ap suc (same q)
      same (Permᴰ.swap _ _) = refl
      same (Permᴰ.trans q r) = same q ∙ same r

  -- `xs[i]`, or `fallback` out of range
  unfoldable pub entry : A → List A → ℕ → A
  entry fallback [] i = fallback
  entry fallback (x ∷ xs) zero = x
  entry fallback (x ∷ xs) (suc i) = entry fallback xs i

  unfoldable pub exchange : A → List A → ℕ → ℕ → List A
  exchange fallback xs i j = set (set xs i (entry fallback xs j)) j (entry fallback xs i)

  module _ (fallback : A) where
    pub get_elem?-entry :
        (xs : List A) (i : ℕ) → i < length xs → get_elem? xs i ≡ some (entry fallback xs i)
    unfolding entry
    get_elem?-entry [] i h = absurd (omega arith)
    get_elem?-entry (x ∷ xs) zero h = refl
    get_elem?-entry (x ∷ xs) (suc i) h = get_elem?-entry xs i (omega arith)

    pub entry-set :
        (xs : List A) (i j : ℕ) (v : A)
        → i < length xs
        → entry fallback (set xs i v) j ≡ (if i == j then v else entry fallback xs j)
    unfolding entry
    entry-set [] i j v h = absurd (omega arith)
    entry-set (x ∷ xs) zero zero v h = refl
    entry-set (x ∷ xs) zero (suc j) v h = ground arith
    entry-set (x ∷ xs) (suc i) zero v h = ground arith
    entry-set (x ∷ xs) (suc i) (suc j) v h = ground (arith, entry-set xs i j v)

    pub entry-append :
        (xs ys : List A) (i : ℕ) → i < length xs → entry fallback (xs ++ ys) i ≡ entry fallback xs i
    unfolding entry
    entry-append [] ys i h = absurd (omega arith)
    entry-append (x ∷ xs) ys zero h = refl
    entry-append (x ∷ xs) ys (suc i) h = entry-append xs ys i (omega arith)

    pub entry-take :
        (n : ℕ) (xs : List A) (i : ℕ) → i < n → entry fallback (take n xs) i ≡ entry fallback xs i
    unfolding entry
    entry-take zero xs i h = absurd (omega arith)
    entry-take (suc n) [] i h = refl
    entry-take (suc n) (x ∷ xs) zero h = refl
    entry-take (suc n) (x ∷ xs) (suc i) h = entry-take n xs i (omega arith)

    -- the last element behind the others is the whole
    pub take-append-last :
        (n : ℕ) (xs : List A) → length xs ≡ suc n → take n xs ++ entry fallback xs n ∷ [] ≡ xs
    unfolding entry
    take-append-last zero [] h = absurd (omega arith)
    take-append-last zero (x ∷ []) h = refl
    take-append-last zero (x ∷ y ∷ xs) h = absurd (omega arith)
    take-append-last (suc n) [] h = absurd (omega arith)
    take-append-last (suc n) (x ∷ xs) h = ap (◌∷◌ x) (take-append-last n xs (omega arith))

    -- the old element and the list after a write are the new one and the list before
    set-perm :
        (xs : List A) (i : ℕ) (v : A)
        → i < length xs
        → Perm (entry fallback xs i ∷ set xs i v) (v ∷ xs)
    unfolding entry
    set-perm [] i v h = absurd (omega arith)
    set-perm (x ∷ xs) zero v h = Perm.swap v x xs
    set-perm (x ∷ xs) (suc i) v h =
        Perm.trans (Perm.swap x _ _)
          (Perm.trans (Perm.cons x (set-perm xs i v (omega arith))) (Perm.swap v x xs))

    pub length-exchange : (xs : List A) (i j : ℕ) → length (exchange fallback xs i j) ≡ length xs
    unfolding exchange
    length-exchange xs i j =
        length-set (set xs i (entry fallback xs j)) j (entry fallback xs i)
        ∙ length-set xs i (entry fallback xs j)

    pub entry-exchange :
        (xs : List A) (i j : ℕ)
        → i < length xs
        → j < length xs
        → (c : ℕ)
        → entry fallback (exchange fallback xs i j) c ≡ (
            if j == c
            then entry fallback xs i
            else if i == c
            then entry fallback xs j
            else entry fallback xs c)
    unfolding exchange
    entry-exchange xs i j hi hj c = ground (
      arith,
      length-set xs i (entry fallback xs j),
      entry-set (set xs i (entry fallback xs j)) j c (entry fallback xs i),
      entry-set xs i c (entry fallback xs j),
    )

    pub exchange-perm :
        (xs : List A) (i j : ℕ) → i < length xs → j < length xs → Perm (exchange fallback xs i j) xs
    unfolding exchange
    exchange-perm xs i j hi hj =
        let written = set xs i (entry fallback xs j) in
        let second =
          set-perm written j (entry fallback xs i)
            (omega (arith, length-set xs i (entry fallback xs j))) in
        let same : entry fallback written j ≡ entry fallback xs j =
          ground (arith, entry-set xs i j (entry fallback xs j)) in
        Perm.cons_inv (Perm.trans (rw same at second) (set-perm xs i (entry fallback xs j) hi))

    pub entry-append_last : (xs : List A) (v : A) → entry fallback (xs ++ v ∷ []) (length xs) ≡ v
    unfolding entry
    entry-append_last [] v = refl
    entry-append_last (x ∷ xs) v = entry-append_last xs v

module _ {ℓ} {A : Type ℓ} where
  pub snoc-perm : (xs : List A) (v : A) → Perm (xs ++ v ∷ []) (v ∷ xs)
  snoc-perm [] v = Perm.rfl
  snoc-perm (x ∷ xs) v = Perm.trans (Perm.cons x (snoc-perm xs v)) (Perm.swap v x xs)
