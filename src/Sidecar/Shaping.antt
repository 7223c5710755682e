-- ===== src/Sidecar/Shaping.antt =====
-- The numbers that pkg/sidecar/link.go hands to the kernel.
use testground.Base.{ℕ, ◌+◌, ◌-◌, ◌/◌, ◌≤◌, ◌<◌, ◌≡◌, ◌≢◌, refl, ◌⊎◌, inl, inr, arith}
use native.Mathlib.Decide.{dec_lt}
use testground.Base.Int.{pos, negsuc}
use testground.Sidecar.{u32_mod, root_handle, default_handle, handles_for_index, to_microseconds}

-- A delay that is not negative is sent to the kernel as its microseconds, or as the largest uint32
-- when they do not fit. A negative one of at least a microsecond, and at most 2^31 of them, becomes
-- a delay of at least 2^31 microseconds.
pub to_microseconds_correct :
    (n : ℕ)
    → 1000 ≤ n + 1
    → (n + 1) / 1000 ≤ 2147483648
    → (((n / 1000 < u32_mod) × (to_microseconds (pos n) ≡ n / 1000))
        ⊎ ((u32_mod ≤ n / 1000) × (to_microseconds (pos n) ≡ u32_mod - 1)))
      × (to_microseconds (negsuc n) ≡ u32_mod - (n + 1) / 1000)
      × (2147483648 ≤ to_microseconds (negsuc n))
unfolding to_microseconds
to_microseconds_correct n h k = (saturated, omega arith, omega arith)
  where
    saturated :
        ((n / 1000 < u32_mod) × (to_microseconds (pos n) ≡ n / 1000))
        ⊎ ((u32_mod ≤ n / 1000) × (to_microseconds (pos n) ≡ u32_mod - 1))
    saturated = elim (dec_lt (n / 1000) u32_mod) [
      | yes p ↦ inl (p, ground arith)
      | no p ↦ inr (omega arith, ground arith)
    ]

-- Below index 65534, each class has a handle of its own, which is not the root's; the class of the
-- first index is the one that the root sends its traffic to.
pub handles_for_index-distinct :
    (i j : ℕ)
    → i < 65534
    → j < 65534
    → i ≢ j
    → ((handles_for_index i).0 ≢ (handles_for_index j).0)
      × ((handles_for_index i).1 ≢ (handles_for_index j).1)
      × ((handles_for_index i).0 ≢ root_handle)
      × ((handles_for_index 0).0 ≡ default_handle)
unfolding handles_for_index
handles_for_index-distinct i j h k ne =
    (λ e. ne (omega arith), λ e. ne (omega arith), λ e. absurd (omega arith), refl)
