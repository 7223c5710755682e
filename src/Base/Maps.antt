-- ===== src/Base/Maps.antt =====
-- Go's `map[string]V`. A map is the list of its entries, in the order in which a `range` over it
-- meets them; that order is the runtime's, so what is proved holds for every order. Go's nil map
-- reads as the empty one.
use Prim.Native.String.{String}
use mathlib.Core.List.{List, [], ◌∷◌}
use mathlib.Core.Option.{Option, none, some}
use mathlib.Core.Path.{◌≡◌, refl}
use native.Mathlib.Omega.{arith}
use testground.Base.Tests.{if◌then◌else◌}
use text.Mathlib.Text.{◌==◌ as str_eq}
use text.Mathlib.TextEquality.{eq_iff}

abbrev pub Map {ℓ} : Type ℓ → Type ℓ
Map V = List (String × V)

module _ {ℓ} {V : Type ℓ} where
  -- `m[key]`, with the `ok` of the two-valued form
  unfoldable pub lookup : String → Map V → Option V
  lookup key [] = none
  lookup key ((name, value) ∷ others) =
      let further = lookup key others in if str_eq name key then some value else further

  -- `delete(m, key)`
  unfoldable pub remove : String → Map V → Map V
  remove key [] = []
  remove key ((name, value) ∷ others) =
      let rest = remove key others in if str_eq name key then rest else (name, value) ∷ rest

  -- `m[key] = new`
  unfoldable pub insert : String → V → Map V → Map V
  insert key new [] = (key, new) ∷ []
  insert key new ((name, old) ∷ others) =
      let further = insert key new others in
      if str_eq name key then (key, new) ∷ others else (name, old) ∷ further

  pub lookup-remove :
      (gone key : String) (m : Map V)
      → lookup key (remove gone m) ≡ (if str_eq gone key then none else lookup key m)
  unfolding lookup remove
  lookup-remove gone key [] = ground arith
  lookup-remove gone key ((name, value) ∷ others) =
      let further = lookup-remove gone key others in
      ground (arith, further, eq_iff gone key, eq_iff name gone, eq_iff name key)

  pub lookup-insert :
      (set key : String) (new : V) (m : Map V)
      → lookup key (insert set new m) ≡ (if str_eq set key then some new else lookup key m)
  unfolding insert lookup
  lookup-insert set key new [] = refl
  lookup-insert set key new ((name, old) ∷ others) =
      let further = lookup-insert set key new others in
      ground (arith, further, eq_iff name set, eq_iff name key, eq_iff set key)

  -- `for k, v := range from { if _, ok := to[k]; !ok { to[k] = v } }`
  unfoldable pub add_missing : Map V → Map V → Map V
  add_missing [] to = to
  add_missing ((k, v) ∷ from) to =
      add_missing from (elim (lookup k to) [ none ↦ insert k v to | some _ ↦ to ])

abbrev pub or_else {ℓ} : {A : Type ℓ} → Option A → Option A → Option A
or_else (some a) b = some a
or_else none b = b

module _ {ℓ} {V : Type ℓ} where
  add_one :
      (k j : String) (v : V) (to : Map V)
      → lookup j (elim (lookup k to) [ none ↦ insert k v to | some _ ↦ to ])
        ≡ or_else (lookup j to) (if str_eq k j then some v else none)
  add_one k j v to = ground (arith, lookup-insert k j v to, eq_iff k j)

  -- What was set stays, and only what was absent is taken from the defaults.
  pub lookup-add_missing :
      (j : String) (from to : Map V)
      → lookup j (add_missing from to) ≡ or_else (lookup j to) (lookup j from)
  unfolding add_missing lookup
  lookup-add_missing j [] to = ground arith
  lookup-add_missing j ((k, v) ∷ from) to = ground (
    arith,
    lookup-add_missing j from (elim (lookup k to) [ none ↦ insert k v to | some _ ↦ to ]),
    add_one k j v to,
  )
