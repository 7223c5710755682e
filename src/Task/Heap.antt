-- ===== src/Task/Heap.antt =====
-- container/heap of Go's standard library, as pkg/task/queue.go uses it: `up`, `down` and their use
-- by `heap.Push` and `heap.Pop`, over a `Less` that may panic.
pub mod Order
pub mod Up
pub mod Down
use testground.Base.{
  ℕ, zero, suc, ◌+◌, ◌-◌, ◌*◌, ◌/◌, String, Bool, Option, none, some, List, [], ◌∷◌, ltb, leb, ◌==◌,
  if◌then◌else◌, length, get_elem?, set,
}
use testground.Base.Errors.{Fallible, ok, err, panic, ◌>>=◌}
use testground.Task.Errors.{TaskError, out_of_fuel}

-- `up` and `down` take at most as many rounds as there are elements, so the fuel given is enough.
abbrev pub Run {ℓ} : Type ℓ → Type ℓ
Run A = Fallible TaskError A

abbrev pub or_panic {ℓ} : {A : Type ℓ} → Option A → Run A
or_panic none = panic
or_panic (some a) = ok a

module _ {A : Type 0} (less : A → A → Run Bool) where
  -- `h.Less(i, j)`
  unfoldable pub less_at : List A → ℕ → ℕ → Run Bool
  less_at xs i j = do x ← or_panic (get_elem? xs i); y ← or_panic (get_elem? xs j); less x y

-- `h.Swap(i, j)`: `q[j], q[i] = q[i], q[j]`
unfoldable pub swap : {A : Type 0} → List A → ℕ → ℕ → Run (List A)
swap xs i j = do
  x ← or_panic (get_elem? xs i)
  y ← or_panic (get_elem? xs j)
  ok (set (set xs i y) j x)

abbrev pub parent : ℕ → ℕ
parent c = (c - 1) / 2

module _ {A : Type 0} (less : A → A → Run Bool) where
  -- up(h, j)
  unfoldable pub up : ℕ → List A → ℕ → Run (List A)
  up zero xs j = err out_of_fuel
  up (suc f) xs j =
      let rise = swap xs (parent j) j >>= λ ys. up f ys (parent j) in
      let test = less_at less xs j (parent j) >>= λ above. if above then rise else ok xs in
      if parent j == j then ok xs else test

  -- the child that `down` compares with: the right one if it exists and stands before the left
  unfoldable pub choose_child : List A → ℕ → ℕ → Run ℕ
  choose_child xs i n =
      if ltb (2 * i + 2) n
      then (do
        right_first ← less_at less xs (2 * i + 2) (2 * i + 1)
        ok (if right_first then 2 * i + 2 else 2 * i + 1))
      else ok (2 * i + 1)

  -- down(h, i, n)
  unfoldable pub down : ℕ → List A → ℕ → ℕ → Run (List A)
  down zero xs i n = err out_of_fuel
  down (suc f) xs i n =
      let step : Run (List A) = do
        j ← choose_child xs i n
        below ← less_at less xs j i
        let sink = swap xs i j >>= λ ys. down f ys j n
        if below then sink else ok xs
      in if leb n (2 * i + 1) then ok xs else step
