-- ===== src/Sidecar/Retry.antt =====
-- pkg/sidecar/k8s_network.go: retry. The waits between the attempts are left out.
use testground.Base.{
  ℕ, zero, suc, ◌+◌, ◌-◌, ◌<◌, ◌≡◌, ◌≢◌, refl, sym, subst, ◌⊎◌, inl, inr, String, Option, none,
  some, arith, leb, Bool, true, false, if◌then◌else◌, Option-cases, Bool-cases,
}
use testground.Base.Int.{ℤ, pos, negsuc, pos_part}
use testground.Sidecar.{Call}

-- the error of the last attempt, with the number of attempts
pub data RetryError : Type 0 where
  after_attempts : ℤ → String → RetryError

-- a loop that returned, or that ran out of rounds
pub data Ran (W : Type 0) : Type 0 where
  returned : Option RetryError → W → Ran W
  unfinished : Ran W

-- `i >= attempts-1` for an i that is not negative
abbrev pub is_last : ℤ → ℕ → Bool
is_last (pos n) i = leb n (i + 1)
is_last (negsuc n) i = true

is_last-true : (attempts : ℤ) (i : ℕ) → is_last attempts i ≡ true → pos_part attempts - (i + 1) ≡ 0
is_last-true (pos n) i h = ground arith
is_last-true (negsuc n) i h = omega arith

is_last-false :
    (attempts : ℤ) (i : ℕ) → is_last attempts i ≡ false → 0 < pos_part attempts - (i + 1)
is_last-false (pos n) i h = ground arith
is_last-false (negsuc n) i h = cc h

module _ {W : Type 0} where
  -- the rest of a round, with the loop that follows
  abbrev after_round : ℤ → ℕ → Option String → W → Ran W → Ran W
  after_round attempts i none w rest = returned none w
  after_round attempts i (some e) w rest =
      if is_last attempts i then returned (some (after_attempts attempts e)) w else rest

  -- the loop on fuel, from round i
  unfoldable pub retry_loop : ℕ → ℤ → Call W → ℕ → W → Ran W
  retry_loop zero attempts f i w = unfinished
  retry_loop (suc fuel) attempts f i w =
      let (e, w') = f w in
      let rest = retry_loop fuel attempts f (i + 1) w' in after_round attempts i e w' rest

  -- retry: one round for each attempt, and at least one
  unfoldable pub retry : ℤ → Call W → W → Ran W
  unfolding retry_loop
  retry attempts f w = retry_loop (suc (pos_part attempts)) attempts f 0 w

  -- the state after some calls
  unfoldable pub after : ℕ → Call W → W → W
  after zero f w = w
  after (suc n) f w = after n f (f w).1

  -- the first n calls fail
  abbrev pub AllFail : ℕ → Call W → W → Type 0
  AllFail zero f w = Unit
  AllFail (suc n) f w = ((f w).0 ≢ none) × AllFail n f (f w).1

  -- The loop ends well at the first call that does, within the calls that are left, or fails after
  -- all of them.
  abbrev pub Outcome : ℕ → Call W → W → Ran W → Type 0
  Outcome n f w r =
      ((k : ℕ) × (k < n)
        × AllFail k f w
        × ((f (after k f w)).0 ≡ none)
        × (r ≡ returned none (after (suc k) f w)))
      ⊎ ((e : RetryError) × AllFail n f w × (r ≡ returned (some e) (after n f w)))

  Outcome-later :
      (n : ℕ) (f : Call W) (w : W) (r : Ran W)
      → (f w).0 ≢ none
      → Outcome n f (f w).1 r
      → Outcome (suc n) f w r
  unfolding after
  Outcome-later n f w r failed (inl (k, small, fail, good, e)) =
      inl (suc k, omega arith, (failed, fail), good, e)
  Outcome-later n f w r failed (inr (x, fail, e)) = inr (x, (failed, fail), e)

  retry_loop-more :
      (fuel : ℕ) (attempts : ℤ) (f : Call W) (i : ℕ) (w : W) {x : String}
      → (f w).0 ≡ some x
      → is_last attempts i ≡ false
      → retry_loop (suc fuel) attempts f i w ≡ retry_loop fuel attempts f (i + 1) (f w).1
  unfolding retry_loop
  retry_loop-more fuel attempts f i w bad more = rw bad (rw more refl)

  retry_loop_lem :
      (fuel n : ℕ) (attempts : ℤ) (f : Call W) (i : ℕ) (w : W)
      → pos_part attempts - (i + 1) ≡ n
      → n < fuel
      → Outcome (suc n) f w (retry_loop fuel attempts f i w)
  unfolding retry_loop after
  retry_loop_lem zero n attempts f i w e h = elim h [ ]
  retry_loop_lem (suc fuel) n attempts f i w e h = elim (Option-cases (f w).0) [
    | inl good ↦ inl (0, omega arith, tt, good, rw good refl)
    | inr (x, bad) ↦ elim (Bool-cases (is_last attempts i)) [
      | inl last ↦ inr (
        after_attempts attempts x,
        ((λ good. cc (good, bad)), none_left last),
        rw bad (rw last (rw (no_more last) refl)),
      )
      | inr more ↦
          let some_left : 0 < n = omega (arith, is_last-false attempts i more) in
          let rest =
            retry_loop_lem fuel (n - 1) attempts f (i + 1) (f w).1 (omega arith) (omega arith) in
          let same : suc (n - 1) ≡ n = omega arith in
          subst (Outcome (suc n) f w) (sym (retry_loop-more fuel attempts f i w bad more)) (
            Outcome-later n f w _ (λ good. cc (good, bad))
              (subst (λ (k : ℕ). Outcome k f (f w).1 (retry_loop fuel attempts f (i + 1) (f w).1))
                same rest))
    ]
  ]
    where
      no_more : is_last attempts i ≡ true → n ≡ 0
      no_more last = omega (arith, is_last-true attempts i last)

      none_left : is_last attempts i ≡ true → AllFail n f (f w).1
      none_left last = subst (λ (k : ℕ). AllFail k f (f w).1) (sym (no_more last)) tt

  -- retry returns: without an error and after the first call that succeeds, if one of the calls
  -- that it may make does, and with an error and after all of them if each fails. It may make as
  -- many calls as it is told attempts, and one if that is not positive.
  pub retry_correct :
      (attempts : ℤ) (f : Call W) (w : W)
      → Outcome (suc (pos_part attempts - 1)) f w (retry attempts f w)
  unfolding retry
  retry_correct attempts f w =
      retry_loop_lem (suc (pos_part attempts)) (pos_part attempts - 1) attempts f 0 w (omega arith)
        (omega arith)
