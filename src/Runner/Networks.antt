-- ===== src/Runner/Networks.antt =====
-- pkg/runner/common.go: nextDataNetwork.
use native.Mathlib.Decide.{dec_lt}
use testground.Base.{
  ℕ, ◌+◌, ◌/◌, ◌%◌, ◌<◌, ◌≤◌, ◌≡◌, sym, ◌∙◌, inl, inr, ◌⊎◌, String, if◌then◌else◌, ltb, arith,
}
use testground.Base.Errors.{Fallible, ok, err}

-- the subnet `a.b.0.0/16` and its gateway `a.b.0.1`
pub record DataNetwork : Type 0 where
  pub a : ℕ
  pub b : ℕ

-- nextDataNetwork; what it is given is the number of networks
unfoldable pub next_data_network : ℕ → Fallible String DataNetwork
next_data_network len_networks =
    if ltb 4095 len_networks
    then err "space exhausted"
    else ok (record { a = 16 + len_networks / 256; b = len_networks % 256 })

fields_of :
    {a b a' b' : ℕ}
    → ◌≡◌ {A = Fallible String DataNetwork}
        (ok (record { a = a; b = b }))
        (ok (record { a = a'; b = b' }))
    → (a ≡ a') × (b ≡ b')
fields_of h = (cc h, cc h)

next_data_network-ok :
    (n : ℕ) → n < 4096 → next_data_network n ≡ ok (record { a = 16 + n / 256; b = n % 256 })
unfolding next_data_network
next_data_network-ok n h = ground arith

exhausted : (n : ℕ) → 4096 ≤ n → next_data_network n ≡ err "space exhausted"
unfolding next_data_network
exhausted n h = ground arith

-- nextDataNetwork gives the first 4096 numbers distinct networks, from 16.0.0.0/16 to
-- 31.255.0.0/16, and every other number the error that the space is exhausted.
pub next_data_network-distinct :
    (m n : ℕ)
    → ((n < 4096)
        × (net : DataNetwork) × (next_data_network n ≡ ok net)
        × (16 ≤ net.a)
        × (net.a ≤ 31)
        × (net.b ≤ 255)
        × (next_data_network m ≡ ok net → m ≡ n))
      ⊎ ((4096 ≤ n) × (next_data_network n ≡ err "space exhausted"))
next_data_network-distinct m n = elim (dec_lt n 4096) [
  | no many ↦ inr (omega arith, exhausted n (omega arith))
  | yes few ↦ inl (
    few,
    record { a = 16 + n / 256; b = n % 256 },
    next_data_network-ok n few,
    omega arith,
    omega arith,
    omega arith,
    λ same. elim (dec_lt m 4096) [
      | no many ↦ cc (exhausted m (omega arith), same)
      | yes few' ↦
          let (a, b) = fields_of (sym (next_data_network-ok m few') ∙ same) in omega (arith, a, b)
    ],
  )
]
