-- ===== src/Task/Bytes.antt =====
-- Byte strings of the database keys: `strconv.FormatInt` in base 10, and the order of
-- `bytes.Compare`, in which the database keeps its keys.
use Prim.Native.Char.{code}
use text.Mathlib.TextEquality.{Char-path}
use native.Mathlib.Decide.{dec_lt}
use testground.Base.{
  ℕ, zero, suc, ◌+◌, ◌/◌, ◌%◌, ◌<◌, ◌≤◌, ◌≡◌, refl, ap, ◌∙◌, ◌↔◌, ◌&&◌, String, Bool, true, false,
  List, [], ◌∷◌, ◌++◌, arith, ltb, ◌==◌, if◌then◌else◌,
}
use testground.Base.Int.{ℤ, pos, negsuc}

abbrev pub Bytes : Type 0
Bytes = List ℕ

-- the bytes of an ASCII text
abbrev pub codes : String → Bytes
codes String.[] = []
codes (String.◌∷◌ c s) = code c ∷ codes s

-- The digits are written from the last to the first, before what is there already.
unfoldable pub digits : ℕ → ℕ → Bytes → Bytes
digits zero n acc = acc
digits (suc f) n acc =
    let more = digits f (n / 10) ((48 + n % 10) ∷ acc) in if ltb n 10 then (48 + n) ∷ acc else more

-- An int64 has at most 19 digits, so 20 rounds are enough.
unfoldable pub format_int : ℤ → Bytes → Bytes
unfolding digits
format_int (pos n) acc = digits 20 n acc
format_int (negsuc n) acc = 45 ∷ digits 20 (suc n) acc

-- `bytes.Compare(a, b) < 0`
unfoldable pub before : Bytes → Bytes → Bool
before [] [] = false
before [] (y ∷ b) = true
before (x ∷ a) [] = false
before (x ∷ a) (y ∷ b) = if x == y then before a b else ltb x y

-- `n` by exactly `k` digits
pad : ℕ → ℕ → Bytes → Bytes
pad zero n acc = acc
pad (suc k) n acc = pad k (n / 10) ((48 + n % 10) ∷ acc)

-- `n` has at most `k` digits
abbrev Fits : ℕ → ℕ → Type 0
Fits zero n = n ≡ 0
Fits (suc k) n = Fits k (n / 10)

-- `n` has exactly `k + 1` digits
abbrev HasWidth : ℕ → ℕ → Type 0
HasWidth zero n = n < 10
HasWidth (suc k) n = (10 ≤ n) × HasWidth k (n / 10)

digits-eq-pad :
    (f k n : ℕ) (acc : Bytes) → k < f → HasWidth k n → digits f n acc ≡ pad (suc k) n acc
unfolding digits pad
digits-eq-pad zero k n acc h w = absurd (omega arith)
digits-eq-pad (suc f) zero n acc h w = ground arith
digits-eq-pad (suc f) (suc k) n acc h w =
    ground (arith, digits-eq-pad f k (n / 10) ((48 + n % 10) ∷ acc))

pub before-cons_self : (x : ℕ) (a b : Bytes) → before (x ∷ a) (x ∷ b) ≡ before a b
unfolding before
before-cons_self x a b = ground arith

before-cons_lt : (x y : ℕ) (a b : Bytes) → x < y → before (x ∷ a) (y ∷ b) ≡ true
unfolding before
before-cons_lt x y a b h = ground arith

before-pad_self : (k n : ℕ) (a b : Bytes) → before (pad k n a) (pad k n b) ≡ before a b
unfolding pad
before-pad_self zero n a b = refl
before-pad_self (suc k) n a b =
    before-pad_self k (n / 10) ((48 + n % 10) ∷ a) ((48 + n % 10) ∷ b)
    ∙ before-cons_self (48 + n % 10) a b

-- At one width the order of the digits is the order of the numbers, whatever follows.
before-pad_lt : (k m n : ℕ) (a b : Bytes) → Fits k n → m < n → before (pad k m a) (pad k n b) ≡ true
unfolding pad
before-pad_lt zero m n a b f h = absurd (omega arith)
before-pad_lt (suc k) m n a b f h = elim (dec_lt (m / 10) (n / 10)) [
  | yes less ↦ before-pad_lt k (m / 10) (n / 10) ((48 + m % 10) ∷ a) ((48 + n % 10) ∷ b) f less
  | no more ↦
      let same : m / 10 ≡ n / 10 = omega arith in
      rw same (
        before-pad_self k (n / 10) ((48 + m % 10) ∷ a) ((48 + n % 10) ∷ b)
        ∙ before-cons_lt (48 + m % 10) (48 + n % 10) a b (omega arith))
]

-- The Unix times from 2001-09-09 to 2286-11-20 have ten digits.
abbrev pub HasTenDigits : ℕ → Type 0
HasTenDigits n = (1000000000 ≤ n) × (n < 10000000000)

ten_digits : (n : ℕ) (acc : Bytes) → HasTenDigits n → format_int (pos n) acc ≡ pad 10 n acc
unfolding format_int
ten_digits n acc h = digits-eq-pad 20 9 n acc (omega arith) (omega arith)

-- Times of ten digits are ordered as their decimal texts are, whatever follows these.
pub before-format_int_lt :
    (m n : ℕ) (a b : Bytes)
    → HasTenDigits m
    → HasTenDigits n
    → m < n
    → before (format_int (pos m) a) (format_int (pos n) b) ≡ true
before-format_int_lt m n a b hm hn h =
    rw (ten_digits m a hm, ten_digits n b hn) (before-pad_lt 10 m n a b (omega arith) h)

pub before-format_int_self :
    (n : ℕ) (a b : Bytes)
    → HasTenDigits n
    → before (format_int (pos n) a) (format_int (pos n) b) ≡ before a b
before-format_int_self n a b h = rw (ten_digits n a h, ten_digits n b h) (before-pad_self 10 n a b)

-- The order is a strict one.
pub before_asym : (a b : Bytes) → before a b ≡ true → before b a ≡ false
unfolding before
before_asym [] [] h = refl
before_asym [] (y ∷ b) h = refl
before_asym (x ∷ a) [] h = cc
before_asym (x ∷ a) (y ∷ b) h = ground (arith, before_asym a b)

pub digits-append : (f n : ℕ) (a b : Bytes) → digits f n (a ++ b) ≡ digits f n a ++ b
unfolding digits
digits-append zero n a b = refl
digits-append (suc f) n a b = ground (arith, digits-append f (n / 10) ((48 + n % 10) ∷ a) b)

format_int-append : (n : ℤ) (a b : Bytes) → format_int n (a ++ b) ≡ format_int n a ++ b
unfolding format_int
format_int-append (pos n) a b = digits-append 20 n a b
format_int-append (negsuc n) a b = ap (◌∷◌ 45) (digits-append 20 (suc n) a b)

format_int_test : format_int (pos 1606408772) (95 ∷ []) ≡ codes "1606408772_"
unfolding format_int
format_int_test = refl

format_int_zero_time : format_int (negsuc 62135596799) [] ≡ codes "-62135596800"
unfolding format_int
format_int_zero_time = refl

-- `bytes.Equal`
unfoldable pub bytes_eq : Bytes → Bytes → Bool
bytes_eq [] [] = true
bytes_eq [] (y ∷ b) = false
bytes_eq (x ∷ a) [] = false
bytes_eq (x ∷ a) (y ∷ b) = (x == y) && bytes_eq a b

pub eq_of_bytes_eq : (a b : Bytes) → bytes_eq a b ≡ true → a ≡ b
unfolding bytes_eq
eq_of_bytes_eq [] [] h = refl
eq_of_bytes_eq [] (y ∷ b) h = cc
eq_of_bytes_eq (x ∷ a) [] h = cc
eq_of_bytes_eq (x ∷ a) (y ∷ b) h = ground (arith, eq_of_bytes_eq a b)

pub bytes_eq_self : (a : Bytes) → bytes_eq a a ≡ true
unfolding bytes_eq
bytes_eq_self [] = refl
bytes_eq_self (x ∷ a) = ground (arith, bytes_eq_self a)

pub bytes_eq_iff : (a b : Bytes) → (bytes_eq a b ≡ true) ↔ (a ≡ b)
bytes_eq_iff a b = (eq_of_bytes_eq a b, λ e. rw e (bytes_eq_self b))

-- The order is total: neither before the other means equal.
pub before_antisym : (a b : Bytes) → before a b ≡ false → before b a ≡ false → a ≡ b
unfolding before
before_antisym [] [] h k = refl
before_antisym [] (y ∷ b) h k = cc
before_antisym (x ∷ a) [] h k = cc
before_antisym (x ∷ a) (y ∷ b) h k = ground (arith, before_antisym a b)

pub before_le_trans : (z y x : Bytes) → before z y ≡ false → before z x ≡ true → before y x ≡ true
unfolding before
before_le_trans [] [] [] h k = cc
before_le_trans [] [] (e ∷ x) h k = refl
before_le_trans [] (d ∷ y) x h k = cc
before_le_trans (c ∷ z) y [] h k = cc
before_le_trans (c ∷ z) [] (e ∷ x) h k = refl
before_le_trans (c ∷ z) (d ∷ y) (e ∷ x) h k = ground (arith, before_le_trans z y x)

pub codes-injective : (s t : String) → codes s ≡ codes t → s ≡ t
codes-injective String.[] String.[] h = refl
codes-injective String.[] (String.◌∷◌ d t) h = cc
codes-injective (String.◌∷◌ c s) String.[] h = cc
codes-injective (String.◌∷◌ c s) (String.◌∷◌ d t) h =
    let heads : c ≡ d = Char-path c d (cc) in
    let tails : s ≡ t = codes-injective s t (cc) in rw (heads, tails)
