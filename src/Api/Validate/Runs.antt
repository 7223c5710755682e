-- ===== src/Api/Validate/Runs.antt =====
-- What ValidateForRun counts and accepts.
use testground.Base.{
  ◌≡◌, ◌≢◌, ◌↔◌, refl, sym, ◌∙◌, subst, ◌⊎◌, inl, inr, ℕ, ◌+◌, ◌%◌, ◌<◌, Bool, true, false, not,
  Option, none, some, List, [], ◌∷◌, ◌==◌, ==_iff, arith, All, All-map, map, get_elem?, set,
  get_elem?-set_ne,
}
use testground.Base.Errors
use testground.Base.Errors.{Fallible, ok, err, panic, fail_if, >>=-eq-ok}
use testground.Base.Actions.{continue}
use testground.Task.Database.{Elem}
use testground.Api.Composition.{
  Float64, u64_mod, Group, Composition, CompositionError, invalid_structure, instances_mismatch,
}
use testground.Api.Groups.{read_all, AllDistinct, Written, Written-cons, Written-nil, deref}
use testground.Api.Validate.{
  with_count, instances_of, count_instances, validate_groups, validate_for_run,
}
use testground.Api.Validate.Unique.{HasUniqueIds, HasBuilders, validate_groups_iff}

module _ {G : Type 0} where
  deref-ok : (a : Option G) {g : G} → deref {E = CompositionError} a ≡ ok g → a ≡ some g
  deref-ok none h = cc
  deref-ok (some g) h = cc h

  read_all-cons :
      (p : ℕ) (ps : List ℕ) (heap gs : List G)
      → read_all {E = CompositionError} (p ∷ ps) heap ≡ ok gs
      → (g : G) × (rest : List G) × (gs ≡ g ∷ rest)
        × (get_elem? heap p ≡ some g)
        × (read_all {E = CompositionError} ps heap ≡ ok rest)
  unfolding read_all
  read_all-cons p ps heap gs h =
      let (g, at, h₁) = >>=-eq-ok (deref {E = CompositionError} (get_elem? heap p)) _ h in
      let (rest, ran, h₂) = >>=-eq-ok (read_all {E = CompositionError} ps heap) _ h₁ in
      (g, rest, cc h₂, deref-ok (get_elem? heap p) at, ran)

  cons-read_all :
      (p : ℕ) (ps : List ℕ) (heap : List G) (g : G) (rest : List G)
      → get_elem? heap p ≡ some g
      → read_all {E = CompositionError} ps heap ≡ ok rest
      → read_all {E = CompositionError} (p ∷ ps) heap ≡ ok (g ∷ rest)
  unfolding read_all
  cons-read_all p ps heap g rest at h = rw at (rw h refl)

  read_all-set :
      (q : ℕ) (ps : List ℕ) (heap : List G) (v : G)
      → ¬ Elem q ps
      → read_all {E = CompositionError} ps (set heap q v) ≡ read_all ps heap
  unfolding read_all
  read_all-set q [] heap v h = refl
  read_all-set q (p ∷ ps) heap v h =
      rw (get_elem?-set_ne heap v (λ (k : q ≡ p). h (inl k)))
        (rw (read_all-set q ps heap v (λ m. h (inr m))) refl)

  read_nil :
      (heap : List G) {gs : List G} → read_all {E = CompositionError} [] heap ≡ ok gs → [] ≡ gs
  unfolding read_all
  read_nil heap h = cc

  -- reading after a loop that wrote the groups
  read_all-Written :
      (write : G → G) (ps qs : List ℕ) (heap heap' gs : List G)
      → Written write ps heap heap'
      → All (λ q. Elem q ps) qs
      → read_all {E = CompositionError} qs heap ≡ ok gs
      → read_all {E = CompositionError} qs heap' ≡ ok (map write gs)
  read_all-Written write ps [] heap heap' gs w inside h =
      unfold read_all in rw (← read_nil heap h) refl
  read_all-Written write ps (q ∷ qs) heap heap' gs w (m, inside) h =
      let (g, rest, same, at, h') = read_all-cons q qs heap gs h in
      rw same (
        cons-read_all q qs heap' (write g) (map write rest) (w.written q g m at)
          (read_all-Written write ps qs heap heap' rest w inside h'))

All-Elem : (ps : List ℕ) → All (λ q. Elem q ps) ps
All-Elem [] = tt
All-Elem (p ∷ ps) =
    (inl refl, All-map (λ q. Elem q ps) (λ q. Elem q (p ∷ ps)) ps (λ q m. inr m) (All-Elem ps))

module _ (float : Float64) (total : ℕ) where
  -- the instances of the groups, without a wrap-around
  abbrev pub instance_sum : List (Group float.F) → ℕ
  instance_sum [] = 0
  instance_sum (g ∷ gs) = instances_of float total g + instance_sum gs

  wrap_add : (a b c : ℕ) → ((a + b) % u64_mod + c) % u64_mod ≡ (a + (b + c)) % u64_mod
  wrap_add a b c = omega arith

  count_nil :
      (cum : ℕ) (heap : List (Group float.F))
      → cum < u64_mod
      → count_instances float total cum [] heap ≡ (ok ((cum + 0) % u64_mod), heap)
  unfolding count_instances
  count_nil cum heap small = cc (unwrapped small)
    where
      unwrapped : cum < u64_mod → cum ≡ (cum + 0) % u64_mod
      unwrapped h = omega arith

  count_cons :
      (cum sum p : ℕ) (ps : List ℕ) (heap heap' : List (Group float.F)) (g : Group float.F)
      → get_elem? heap p ≡ some g
      → count_instances float total
          ((cum + instances_of float total g) % u64_mod)
          ps
          (set heap p (with_count float total g))
        ≡ (ok (((cum + instances_of float total g) % u64_mod + sum) % u64_mod), heap')
      → count_instances float total cum (p ∷ ps) heap
        ≡ (ok ((cum + (instances_of float total g + sum)) % u64_mod), heap')
  unfolding count_instances
  count_cons cum sum p ps heap heap' g at ran =
      cc (at, ran, wrap_add cum (instances_of float total g) sum)

  count_instances_lem :
      (cum : ℕ) (ps : List ℕ) (heap gs : List (Group float.F))
      → cum < u64_mod
      → AllDistinct ps
      → read_all {E = CompositionError} ps heap ≡ ok gs
      → (heap' : List (Group float.F)) × (count_instances float total cum ps heap
          ≡ (ok ((cum + instance_sum gs) % u64_mod), heap'))
        × Written (with_count float total) ps heap heap'
  count_instances_lem cum [] heap gs small distinct h =
      (heap, rw (← read_nil heap h) (count_nil cum heap small), Written-nil _ heap)
  count_instances_lem cum (p ∷ ps) heap gs small (fresh, distinct) h =
      let (g, rest, same, at, h') = read_all-cons p ps heap gs h in
      let (heap', ran, w) =
        count_instances_lem ((cum + instances_of float total g) % u64_mod) ps
          (set heap p (with_count float total g)) rest (omega arith) distinct
          (read_all-set p ps heap (with_count float total g) fresh ∙ h') in
      (
        heap',
        subst
            (λ l.
              ◌≡◌ {A = Fallible CompositionError ℕ × List (Group float.F)}
                (count_instances float total cum (p ∷ ps) heap)
                (ok ((cum + instance_sum l) % u64_mod), heap'))
            (sym same) (count_cons cum (instance_sum rest) p ps heap heap' g at ran),
        Written-cons (with_count float total) p ps heap heap' g at fresh w,
      )

  map-All :
      (P : Group float.F → Type 0) (f : Group float.F → Group float.F) (gs : List (Group float.F))
      → All P (map f gs) ↔ All (λ g. P (f g)) gs
  map-All P f [] = ((λ h. h), λ h. h)
  map-All P f (g ∷ gs) =
      ((λ (h, k). (h, (map-All P f gs).0 k)), λ (h, k). (h, (map-All P f gs).1 k))

  map-HasUniqueIds :
      (gs : List (Group float.F)) → HasUniqueIds (map (with_count float total) gs) ↔ HasUniqueIds gs
  map-HasUniqueIds [] = ((λ h. h), λ h. h)
  map-HasUniqueIds (g ∷ gs) =
      let each = map-All (λ h. g.id ≢ h.id) (with_count float total) gs in
      let rest = map-HasUniqueIds gs in
      ((λ (h, k). (each.0 h, rest.0 k)), λ (h, k). (each.1 h, rest.1 k))

module _ (float : Float64) (is_valid : Composition → List (Group float.F) → Bool)
    (c : Composition) where
  lift_then :
      (r : Fallible CompositionError (Unit {0}))
      (k : List (Group float.F) → Fallible CompositionError (Unit {0}))
      (heap : List (Group float.F))
      → continue r (λ _ s. (k s, s)) heap ≡ (Errors.◌>>◌ r (k heap), heap)
  lift_then (ok u) k heap = refl
  lift_then (err e) k heap = refl
  lift_then panic k heap = refl

  validate_for_run-invalid :
      (heap : List (Group float.F))
      → is_valid c heap ≡ false
      → validate_for_run float is_valid c heap ≡ (err invalid_structure, heap)
  unfolding validate_for_run
  validate_for_run-invalid heap h = rw h refl

  validate_for_run-counted :
      (heap heap' : List (Group float.F)) (cum : ℕ)
      → is_valid c heap ≡ true
      → count_instances float c.global.total_instances 0 c.groups heap ≡ (ok cum, heap')
      → validate_for_run float is_valid c heap ≡ (
        Errors.◌>>◌
            (fail_if
              (not (c.global.total_instances == cum))
              (instances_mismatch c.global.total_instances cum))
            (validate_groups c heap'),
        heap',
      )
  unfolding validate_for_run
  validate_for_run-counted heap heap' cum valid ran = rw valid (
      rw ran (
        lift_then
          (fail_if (not (c.global.total_instances == cum))
            (instances_mismatch c.global.total_instances cum))
          (validate_groups c) heap'))

  -- the sum that the loop compares with the total
  abbrev pub counted : List (Group float.F) → ℕ
  counted gs = instance_sum float c.global.total_instances gs % u64_mod

  total_passes :
      (cum : ℕ) (rest : Fallible CompositionError (Unit {0}))
      → (Errors.◌>>◌
            (fail_if
              (not (c.global.total_instances == cum))
              (instances_mismatch c.global.total_instances cum))
            rest
          ≡ ok tt)
        ↔ ((c.global.total_instances ≡ cum) × (rest ≡ ok tt))
  total_passes cum rest = ground (arith, ==_iff c.global.total_instances cum)

  zero_sum : (n : ℕ) → (0 + n) % u64_mod ≡ n % u64_mod
  zero_sum n = omega arith

  count_all :
      (heap gs : List (Group float.F))
      → AllDistinct c.groups
      → read_all {E = CompositionError} c.groups heap ≡ ok gs
      → (heap' : List (Group float.F)) × (count_instances float c.global.total_instances 0 c.groups
            heap
          ≡ (ok (counted gs), heap'))
        × Written (with_count float c.global.total_instances) c.groups heap heap'
  count_all heap gs distinct read =
      let (heap', ran, w) =
        count_instances_lem float c.global.total_instances 0 c.groups heap gs (omega arith) distinct
          read in
      (
        heap',
        subst
            (λ n.
              ◌≡◌ {A = Fallible CompositionError ℕ × List (Group float.F)}
                (count_instances float c.global.total_instances 0 c.groups heap) (ok n, heap'))
            (zero_sum (instance_sum float c.global.total_instances gs)) ran,
        w,
      )

  accepted :
      (heap' gs : List (Group float.F))
      → read_all {E = CompositionError} c.groups heap'
        ≡ ok (map (with_count float c.global.total_instances) gs)
      → (Errors.◌>>◌
            (fail_if
              (not (c.global.total_instances == counted gs))
              (instances_mismatch c.global.total_instances (counted gs)))
            (validate_groups c heap')
          ≡ ok tt)
        ↔ ((c.global.total_instances ≡ counted gs)
            × HasUniqueIds gs
            × HasBuilders c.global.builder gs)
  accepted heap' gs read =
      let total = total_passes (counted gs) (validate_groups c heap') in
      let groups =
        validate_groups_iff c heap' (map (with_count float c.global.total_instances) gs) read in
      let ids = map-HasUniqueIds float c.global.total_instances gs in
      let builders =
        map-All float c.global.total_instances (λ g. (g.builder ≢ "") ⊎ (c.global.builder ≢ ""))
          (with_count float c.global.total_instances) gs in
      (
        λ h.
            let (sum, rest) = total.0 h in
            let (unique, all) = groups.0 rest in (sum, ids.0 unique, builders.0 all),
        λ (sum, unique, all). total.1 (sum, groups.1 (ids.1 unique, builders.1 all)),
      )

  -- What ValidateForRun does with distinct groups. If the validator library refuses the
  -- composition, it changes nothing and returns that error. Otherwise it writes its number of
  -- instances to each group, and accepts exactly if the numbers add up to the total, modulo 2 ^ 64,
  -- the ids differ, and each group has a builder or there is a global one.
  pub validate_for_run_correct :
      (heap gs : List (Group float.F))
      → AllDistinct c.groups
      → read_all {E = CompositionError} c.groups heap ≡ ok gs
      → (is_valid c heap ≡ false
          → validate_for_run float is_valid c heap ≡ (err invalid_structure, heap))
        × (is_valid c heap ≡ true
            → (heap' : List (Group float.F)) × ((validate_for_run float is_valid c heap).1 ≡ heap')
              × Written (with_count float c.global.total_instances) c.groups heap heap'
              × (((validate_for_run float is_valid c heap).0 ≡ ok tt) ↔ (
                  (c.global.total_instances ≡ counted gs)
                  × HasUniqueIds gs
                  × HasBuilders c.global.builder gs)))
  validate_for_run_correct heap gs distinct read = (
    validate_for_run-invalid heap,
    λ valid.
        let total = c.global.total_instances in
        let (heap', ran, w) = count_all heap gs distinct read in
        let result = validate_for_run-counted heap heap' (counted gs) valid ran in
        let read' =
          read_all-Written (with_count float total) c.groups c.groups heap heap' gs w
            (All-Elem c.groups) read in
        (heap', rw result refl, w, rw result (accepted heap' gs read')),
  )
