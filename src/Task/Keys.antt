-- ===== src/Task/Keys.antt =====
-- The database keys of pkg/task/storage.go: two tasks never share one, nor do two phases.
use native.Mathlib.Decide.{dec_lt}
use testground.Base.{
  ℕ, zero, suc, ◌+◌, ◌/◌, ◌%◌, ◌<◌, ◌≤◌, ◌≡◌, ◌≢◌, refl, sym, ◌∙◌, [], ◌∷◌, ◌++◌, arith, All,
}
use testground.Base.Int.{pos}
use testground.Task.Bytes.{Bytes, digits, format_int, digits-append}
use testground.Task.Database.{XidLib}
use testground.Task.Storage.{prefix_scheduled, prefix_processing, prefix_complete, key_of}

abbrev IsDigit : ℕ → Type 0
IsDigit c = (48 ≤ c) × (c < 58)

digits-IsDigit : (f n : ℕ) (acc : Bytes) → All IsDigit acc → All IsDigit (digits f n acc)
unfolding digits
digits-IsDigit zero n acc h = h
digits-IsDigit (suc f) n acc h = elim (dec_lt n 10) [
  | yes small ↦ ground arith
  | no big ↦ ground (arith, digits-IsDigit f (n / 10) ((48 + n % 10) ∷ acc) (omega arith, h))
]

-- what follows the first underscore behind a run of digits
after_digits : (a b x y : Bytes) → All IsDigit a → All IsDigit b → a ++ 95 ∷ x ≡ b ++ 95 ∷ y → x ≡ y
after_digits [] [] x y h k e = cc
after_digits [] (c ∷ b) x y h k e = absurd (ground arith)
after_digits (c ∷ a) [] x y h k e = absurd (ground arith)
after_digits (c ∷ a) (c' ∷ b) x y h k e = after_digits a b x y h.1 k.1 (cc)

format_int-suffix :
    (m n : ℕ) (x y : Bytes) → format_int (pos m) (95 ∷ x) ≡ format_int (pos n) (95 ∷ y) → x ≡ y
unfolding format_int
format_int-suffix m n x y e =
    after_digits (digits 20 m []) (digits 20 n []) x y (digits-IsDigit 20 m [] tt)
      (digits-IsDigit 20 n [] tt)
      (sym (digits-append 20 m [] (95 ∷ x)) ∙ e ∙ digits-append 20 n [] (95 ∷ y))

append_cancel : (p a b : Bytes) → p ++ a ≡ p ++ b → a ≡ b
append_cancel [] a b e = e
append_cancel (c ∷ p) a b e = append_cancel p a b (cc)

-- The three phases of a stored task.
pub data Phase : Type 0 where
  queued current archived : Phase

pub Phase-discrete : Discrete Phase
Phase-discrete = hlevel

abbrev pub prefix : Phase → Bytes
prefix Phase.queued = prefix_scheduled
prefix Phase.current = prefix_processing
prefix Phase.archived = prefix_complete

module _ (xids : XidLib) where
  open xids use {Xid, to_bytes_injective, seconds, to_bytes}

  -- In one phase, the key tells the task.
  pub key_of-injective : (p : Bytes) (u v : Xid) → key_of xids p u ≡ key_of xids p v → u ≡ v
  unfolding key_of
  key_of-injective p u v e = to_bytes_injective u v (
      format_int-suffix (seconds u) (seconds v) (to_bytes u) (to_bytes v)
        (tail (append_cancel p _ _ e)))
    where
      tail : {x y : Bytes} → ◌≡◌ {A = Bytes} (58 ∷ x) (58 ∷ y) → x ≡ y
      tail h = cc

  -- The keys of two phases differ.
  pub key_of-ne :
      (p q : Phase) (u v : Xid) → p ≢ q → key_of xids (prefix p) u ≢ key_of xids (prefix q) v
  unfolding key_of
  key_of-ne Phase.queued Phase.queued u v h = absurd (h refl)
  key_of-ne Phase.current Phase.current u v h = absurd (h refl)
  key_of-ne Phase.archived Phase.archived u v h = absurd (h refl)
  key_of-ne _ _ u v h = λ e. ground arith

  pub key_of-same :
      (p q : Phase) (u v : Xid)
      → key_of xids (prefix p) u ≡ key_of xids (prefix q) v
      → (p ≡ q) × (u ≡ v)
  key_of-same p q u v e = elim (Phase-discrete p q) [
    | yes same ↦ (same, key_of-injective (prefix q) u v (rw same at e))
    | no apart ↦ absurd (key_of-ne p q u v apart e)
  ]
