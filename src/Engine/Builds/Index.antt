-- ===== src/Engine/Builds/Index.antt =====
-- The index of the groups of a composition by their build keys, in doBuild.
use testground.Base.{
  ℕ, suc, ◌+◌, ◌<◌, ◌≡◌, ◌≢◌, refl, sym, ap, ◌∙◌, inl, inr, String, some, List, [], ◌∷◌, ◌++◌, ◌==◌,
  ==_iff, length, get_elem?, All, All-append, arith, subst, str_eq, eq_iff, Bool-cases,
  Option-cases, length-append,
}
use testground.Base.Maps.{Map, lookup, insert, lookup-insert}
use testground.Base.Errors.{Fallible, ok, err, panic, >>=-eq-ok}
use testground.Task.Database.{Elem}
use testground.Api.Composition.{Group}
use testground.Api.Build.{KeyDocument, group_key}
use testground.Engine.Builds.{index_groups, indices_of, of_key}

module _ {ℓ} {V : Type ℓ} where
  All-insert {κ} :
      (P : String × V → Type κ) (k : String) (v : V) (m : Map V)
      → P (k, v)
      → All P m
      → All P (insert k v m)
  unfolding insert
  All-insert P k v [] h all = (h, tt)
  All-insert P k v ((name, old) ∷ others) h all =
      let rest = All-insert P k v others h all.1 in
      elim (Bool-cases (str_eq name k)) [
        | inl same ↦ rw same (h, all.1)
        | inr differ ↦ rw differ (all.0, rest)
      ]

  All-lookup {κ} :
      (P : String × V → Type κ) (k : String) (v : V) (m : Map V)
      → All P m
      → lookup k m ≡ some v
      → P (k, v)
  unfolding lookup
  All-lookup P k v [] all e = cc e
  All-lookup P k v ((name, old) ∷ others) all e =
      let rest = All-lookup P k v others all.1 in
      elim (Bool-cases (str_eq name k)) [
        | inl same ↦
            let name-k = (eq_iff name k).0 same in
            let old-v = rw same at e in subst P (cc (name-k, old-v)) all.0
        | inr differ ↦ rest (rw differ at e)
      ]

lookup-insert_self {ℓ} :
    {V : Type ℓ} (k : String) (v : V) (m : Map V) → lookup k (insert k v m) ≡ some v
lookup-insert_self k v m = ground (arith, lookup-insert k k v m, eq_iff k k)

Elem-append : {A : Type 0} (a : A) (xs ys : List A) → Elem a xs → Elem a (xs ++ ys)
Elem-append a [] ys h = absurd h
Elem-append a (x ∷ xs) ys (inl e) = inl e
Elem-append a (x ∷ xs) ys (inr h) = inr (Elem-append a xs ys h)

Elem-append_last : {A : Type 0} (a : A) (xs : List A) → Elem a (xs ++ a ∷ [])
Elem-append_last a [] = inl refl
Elem-append_last a (x ∷ xs) = inr (Elem-append_last a xs)

of_key-ok : (r : Fallible String KeyDocument) (d : KeyDocument) → of_key r ≡ ok d → r ≡ ok d
of_key-ok (ok k) d e = cc e
of_key-ok (err x) d e = cc e
of_key-ok panic d e = cc e

module _ {F : Type 0} (encode : KeyDocument → String) (grps : List (Group F)) where
  -- the group with a number has a build key
  abbrev pub HasKey : String → ℕ → Type 0
  HasKey k j =
      (g : Group F) × (d : KeyDocument) × (get_elem? grps j ≡ some g)
      × (group_key g ≡ ok d)
      × (encode d ≡ k)

  abbrev pub IsKeyed : String × List ℕ → Type 0
  IsKeyed (k, is) = (0 < length is) × All (HasKey k) is

  -- the groups from a number on
  abbrev pub IsRest : ℕ → List (Group F) → Type 0
  IsRest n gs =
      (i m : ℕ) (g : Group F) → m ≡ n + i → get_elem? gs i ≡ some g → get_elem? grps m ≡ some g

  abbrev pub IsCovered : ℕ → Map (List ℕ) → Type 0
  IsCovered n uniq =
      (j : ℕ) → j < n → (k : String) × (is : List ℕ) × (lookup k uniq ≡ some is) × Elem j is

  IsCovered-insert :
      (k : String) (n : ℕ) (uniq : Map (List ℕ))
      → IsCovered n uniq
      → IsCovered (suc n) (insert k (indices_of (lookup k uniq) ++ n ∷ []) uniq)
  IsCovered-insert k n uniq h j lt = elim (Bool-cases (j == n)) [
    | inl last ↦ (
      k,
      indices_of (lookup k uniq) ++ n ∷ [],
      lookup-insert_self k _ uniq,
      subst (λ x. Elem x (indices_of (lookup k uniq) ++ n ∷ [])) (sym ((==_iff j n).0 last))
          (Elem-append_last n (indices_of (lookup k uniq))),
    )
    | inr before ↦
        let (k', is, there, among) = h j (ground (arith, ==_iff j n)) in
        elim (Bool-cases (str_eq k k')) [
          | inl same ↦ (
            k,
            indices_of (lookup k uniq) ++ n ∷ [],
            lookup-insert_self k _ uniq,
            Elem-append j (indices_of (lookup k uniq)) (n ∷ []) (
                subst (λ o. Elem j (indices_of o))
                  (sym (ap (λ x. lookup x uniq) ((eq_iff k k').0 same) ∙ there)) among),
          )
          | inr differ ↦ (
            k',
            is,
            rw (lookup-insert k k' (indices_of (lookup k uniq) ++ n ∷ []) uniq) (rw differ there),
            among,
          )
        ]
  ]

  indices_of-HasKey :
      (k : String) (uniq : Map (List ℕ))
      → All IsKeyed uniq
      → All (HasKey k) (indices_of (lookup k uniq))
  indices_of-HasKey k uniq keyed = elim (Option-cases (lookup k uniq)) [
    | inl absent ↦ rw absent tt
    | inr (is, there) ↦ rw there (All-lookup IsKeyed k is uniq keyed there).1
  ]

  pub index_groups-IsKeyed :
      (gs : List (Group F)) (n : ℕ) (uniq out : Map (List ℕ))
      → IsRest n gs
      → All IsKeyed uniq
      → index_groups encode gs n uniq ≡ ok out
      → All IsKeyed out
  unfolding index_groups
  index_groups-IsKeyed [] n uniq out rest keyed e = subst (All IsKeyed) (cc e) keyed
  index_groups-IsKeyed (g ∷ gs) n uniq out rest keyed e =
      let (d, key, further) = >>=-eq-ok (of_key (group_key g)) _ e in
      let own : HasKey (encode d) n =
        (g, d, rest 0 n g (omega arith) refl, of_key-ok (group_key g) d key, refl) in
      index_groups-IsKeyed gs (suc n) _ out
        (λ i m x total at_i. rest (suc i) m x (omega arith) at_i)
        (All-insert IsKeyed (encode d) _ uniq
          (
            omega (arith, length-append (indices_of (lookup (encode d) uniq)) (n ∷ [])),
            All-append (HasKey (encode d)) (indices_of (lookup (encode d) uniq)) (n ∷ [])
                (indices_of-HasKey (encode d) uniq keyed) (own, tt),
          )
          keyed)
        further

  pub index_groups-IsCovered :
      (gs : List (Group F)) (n m : ℕ) (uniq out : Map (List ℕ))
      → m ≡ n + length gs
      → IsCovered n uniq
      → index_groups encode gs n uniq ≡ ok out
      → IsCovered m out
  unfolding index_groups
  index_groups-IsCovered [] n m uniq out total h e = λ j lt.
      subst (λ x. (k : String) × (is : List ℕ) × (lookup k x ≡ some is) × Elem j is) (cc e)
        (h j (omega arith))
  index_groups-IsCovered (g ∷ gs) n m uniq out total h e =
      let (d, key, further) = >>=-eq-ok (of_key (group_key g)) _ e in
      index_groups-IsCovered gs (suc n) m _ out (omega arith) (IsCovered-insert (encode d) n uniq h)
        further

  pub index_groups-succeeds :
      (gs : List (Group F)) (n : ℕ) (uniq : Map (List ℕ))
      → All (λ (g : Group F). g.builder ≢ "") gs
      → (out : Map (List ℕ)) × (index_groups encode gs n uniq ≡ ok out)
  unfolding index_groups group_key
  index_groups-succeeds [] n uniq h = (uniq, refl)
  index_groups-succeeds (g ∷ gs) n uniq h = elim (Bool-cases (str_eq g.builder "")) [
    | inl unset ↦ absurd (h.0 ((eq_iff g.builder "").0 unset))
    | inr set_to ↦ rw set_to (index_groups-succeeds gs (suc n) _ h.1)
  ]
