-- ===== src/Api/Prepare/Runners.antt =====
-- The runner check of PrepareForRun, and PickGroups' check of its indices.
use testground.Base.{
  ℕ, ◌≤◌, ◌<◌, ◌≡◌, refl, ◌∙◌, ◌⊎◌, inl, inr, String, Bool, true, false, some, List, [], ◌∷◌, ◌==◌,
  if◌then◌else◌, arith, All, length, get_elem?, get_elem?_of_lt, Bool-cases,
}
use testground.Base.Int.{ℤ, pos, negsuc}
use testground.Base.Errors.{ok, err, panic}
use testground.Task.Database.{Elem}
use testground.Api.Composition.{Composition, invalid_index}
use testground.Api.Build.{str_before, insert_sorted, sort_by, itself}
use testground.Api.Prepare.{
  search_strings, refuses_runner, pick_groups, check_indices, pick, index_group, beyond,
}

-- whether all the strings sort before `x`
abbrev pub all_before : String → List String → Bool
all_before x [] = true
all_before x (s ∷ l) = if str_before s x then all_before x l else false

all_before-insert_sorted :
    (x y : String) (l : List String)
    → all_before x (insert_sorted itself y l) ≡ all_before x (y ∷ l)
unfolding insert_sorted
all_before-insert_sorted x y [] = refl
all_before-insert_sorted x y (z ∷ l) = elim (Bool-cases (str_before z y)) [
  | inl below ↦
      rw below
        (rw (all_before-insert_sorted x y l) (exchange_tests (str_before z x) (str_before y x)))
  | inr above ↦ rw above refl
]
  where
    exchange_tests :
        (p q : Bool)
        → (if p then (if q then all_before x l else false) else false)
          ≡ (if q then (if p then all_before x l else false) else false)
    exchange_tests true true = refl
    exchange_tests true false = refl
    exchange_tests false true = refl
    exchange_tests false false = refl

all_before-sort : (x : String) (l : List String) → all_before x (sort_by itself l) ≡ all_before x l
unfolding sort_by
all_before-sort x [] = refl
all_before-sort x (y ∷ l) =
    rw (all_before-insert_sorted x y (sort_by itself l)) (rw (all_before-sort x l) refl)

search_bound : (x : String) (l : List String) → search_strings l x ≤ length l
unfolding search_strings
search_bound x [] = omega arith
search_bound x (y ∷ l) = ground (arith, search_bound x l)

search_all : (x : String) (l : List String) → (search_strings l x == length l) ≡ all_before x l
unfolding search_strings
search_all x [] = refl
search_all x (y ∷ l) = ground (arith, search_all x l, search_bound x l)

-- PrepareForRun refuses a runner exactly if every runner that the plan supports sorts before it:
-- a runner that the plan does not support passes if it sorts before a supported one.
pub refuses_runner_iff :
    (runners : List String) (runner : String)
    → refuses_runner runners runner ≡ all_before runner runners
unfolding refuses_runner
refuses_runner_iff runners runner =
    search_all runner (sort_by itself runners) ∙ all_before-sort runner runners

-- `ps` are the groups at the indices
abbrev pub PickedAt : List ℕ → List ℤ → List ℕ → Type 0
PickedAt groups [] [] = Unit
PickedAt groups [] (p ∷ ps) = ⊥
PickedAt groups (i ∷ is) [] = ⊥
PickedAt groups (i ∷ is) (p ∷ ps) =
    ((n : ℕ) × (i ≡ pos n) × (get_elem? groups n ≡ some p)) × PickedAt groups is ps

-- one of the indices is negative
abbrev pub HasNegative : List ℤ → Type 0
HasNegative is = (n : ℕ) × Elem (negsuc n) is

check_indices_cases :
    (n : ℕ) (is : List ℤ)
    → ((check_indices n is ≡ ok tt) × All (λ i. beyond n i ≡ false) is)
      ⊎ ((i : ℤ) × (check_indices n is ≡ err (invalid_index i)) × Elem i is × (beyond n i ≡ true))
unfolding check_indices
check_indices_cases n [] = inl (refl, tt)
check_indices_cases n (i ∷ is) = elim (Bool-cases (beyond n i)) [
  | inl above ↦ inr (i, rw above refl, inl refl, above)
  | inr below ↦ elim (check_indices_cases n is) [
    | inl (passed, all) ↦ inl (rw below passed, (below, all))
    | inr (j, failed, m, above) ↦ inr (j, rw below failed, inr m, above)
  ]
]

below_lt : (n m : ℕ) → beyond m (pos n) ≡ false → n < m
below_lt n m h = ground arith

pick_cases :
    (groups : List ℕ) (is : List ℤ)
    → All (λ i. beyond (length groups) i ≡ false) is
    → ((ps : List ℕ) × (pick groups is ≡ ok ps) × PickedAt groups is ps)
      ⊎ ((pick groups is ≡ panic) × HasNegative is)
unfolding pick index_group
pick_cases groups [] all = inl ([], refl, tt)
pick_cases groups (negsuc n ∷ is) all = inr (refl, (n, inl refl))
pick_cases groups (pos n ∷ is) (below, all) =
    let (p, at) = get_elem?_of_lt groups n (below_lt n (length groups) below) in
    elim (pick_cases groups is all) [
      | inl (ps, ran, picked) ↦ inl (p ∷ ps, rw at (rw ran refl), ((n, refl, at), picked))
      | inr (ran, (k, m)) ↦ inr (rw at (rw ran refl), (k, inr m))
    ]

-- PickGroups returns the composition with the groups at the indices, in their order; or it
-- returns an error that names an index that is too large; or, where no index is too large but one
-- is negative, it panics.
pub pick_groups_cases :
    (c : Composition) (is : List ℤ)
    → ((ps : List ℕ) × (pick_groups c is ≡ ok (record c { groups = ps })) × PickedAt c.groups is ps)
      ⊎ (((i : ℤ) × (pick_groups c is ≡ err (invalid_index i))
            × Elem i is
            × (beyond (length c.groups) i ≡ true))
          ⊎ ((pick_groups c is ≡ panic) × HasNegative is))
unfolding pick_groups
pick_groups_cases c is = elim (check_indices_cases (length c.groups) is) [
  | inr (i, failed, m, above) ↦ inr (inl (i, rw failed refl, m, above))
  | inl (passed, all) ↦ elim (pick_cases c.groups is all) [
    | inl (ps, ran, picked) ↦ inl (ps, rw passed (rw ran refl), picked)
    | inr (ran, negative) ↦ inr (inr (rw passed (rw ran refl), negative))
  ]
]
