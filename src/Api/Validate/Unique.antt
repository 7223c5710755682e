-- ===== src/Api/Validate/Unique.antt =====
-- What Groups.Validate accepts.
use testground.Base.{
  ◌≡◌, ◌≢◌, ◌↔◌, refl, ◌⊎◌, String, Bool, true, false, Option, none, some, List, [], ◌∷◌, eq_iff,
  arith, All, All-map, All-both,
}
use testground.Base.Maps.{Map, lookup, insert, lookup-insert}
use testground.Base.Errors
use testground.Base.Errors.{Fallible, ok, err, panic, fail_if, >>=-eq-ok, fail_if-ok}
use testground.Api.Composition.{Group, Composition, CompositionError, duplicate_group}
use testground.Api.Groups.{read_all}
use testground.Api.Validate.{is_some, check_ids, check_builders, validate_groups}

new_after :
    (m : Map (Unit {0})) (k j : String)
    → lookup j (insert k tt m) ≡ none
    → (lookup j m ≡ none) × (k ≢ j)
new_after m k j h = ground (arith, lookup-insert k j tt m, h, eq_iff k j)

after_new :
    (m : Map (Unit {0})) (k j : String)
    → lookup j m ≡ none
    → k ≢ j
    → lookup j (insert k tt m) ≡ none
after_new m k j h apart = ground (arith, lookup-insert k j tt m, h, apart, eq_iff k j)

first_ok :
    (b : Bool) (e : CompositionError) (rest : Fallible CompositionError (Unit {0}))
    → Errors.◌>>◌ (fail_if b e) rest ≡ ok tt
    → (b ≡ false) × (rest ≡ ok tt)
first_ok true e rest h = cc
first_ok false e rest h = (refl, h)

is_some-none : {A : Type 0} (a : Option A) → is_some a ≡ false → a ≡ none
is_some-none none h = refl
is_some-none (some a) h = cc

module _ {F : Type 0} where
  -- no two groups have the same id
  abbrev pub HasUniqueIds : List (Group F) → Type 0
  HasUniqueIds [] = Unit
  HasUniqueIds (g ∷ gs) = All (λ h. g.id ≢ h.id) gs × HasUniqueIds gs

  -- each group has a builder, or there is a global one
  abbrev pub HasBuilders : String → List (Group F) → Type 0
  HasBuilders global_builder gs = All (λ g. (g.builder ≢ "") ⊎ (global_builder ≢ "")) gs

  abbrev AreNew : Map (Unit {0}) → List (Group F) → Type 0
  AreNew m gs = All (λ g. lookup g.id m ≡ none) gs

  check_ids-ok :
      (m : Map (Unit {0})) (gs : List (Group F))
      → check_ids m gs ≡ ok tt
      → AreNew m gs × HasUniqueIds gs
  unfolding check_ids
  check_ids-ok m [] h = (tt, tt)
  check_ids-ok m (g ∷ gs) h =
      let (fresh, rest) = first_ok (is_some (lookup g.id m)) (duplicate_group g.id) _ h in
      let (news, unique) = check_ids-ok (insert g.id tt m) gs rest in
      (
        (
          is_some-none (lookup g.id m) fresh,
          All-map _ (λ j. lookup j.id m ≡ none) gs (λ j n. (new_after m g.id j.id n).0) news,
        ),
        (All-map _ (λ j. g.id ≢ j.id) gs (λ j n. (new_after m g.id j.id n).1) news, unique),
      )

  ok-check_ids :
      (m : Map (Unit {0})) (gs : List (Group F))
      → AreNew m gs
      → HasUniqueIds gs
      → check_ids m gs ≡ ok tt
  unfolding check_ids
  ok-check_ids m [] new unique = refl
  ok-check_ids m (g ∷ gs) (new, news) (apart, unique) = rw new (
      ok-check_ids (insert g.id tt m) gs
        (All-both _ _ (λ j. lookup j.id (insert g.id tt m) ≡ none) gs
          (λ j n a. after_new m g.id j.id n a) news apart)
        unique)

  check_builders_iff :
      (global_builder : String) (gs : List (Group F))
      → (check_builders global_builder gs ≡ ok tt) ↔ HasBuilders global_builder gs
  unfolding check_builders
  check_builders_iff global_builder [] = ((λ h. tt), λ h. refl)
  check_builders_iff global_builder (g ∷ gs) =
      ground
        (arith, check_builders_iff global_builder gs, eq_iff g.builder "", eq_iff global_builder "")

  none_yet : (gs : List (Group F)) → AreNew [] gs
  unfolding lookup
  none_yet [] = tt
  none_yet (g ∷ gs) = (refl, none_yet gs)

  -- Groups.Validate accepts a composition whose groups are `gs` exactly if their ids differ and
  -- each has a builder of its own or the global one.
  pub validate_groups_iff :
      (c : Composition) (heap gs : List (Group F))
      → read_all {E = CompositionError} c.groups heap ≡ ok gs
      → (validate_groups c heap ≡ ok tt) ↔ (HasUniqueIds gs × HasBuilders c.global.builder gs)
  unfolding validate_groups
  validate_groups_iff c heap gs e = rw e (
    λ h.
        let (_, ids, builders) = >>=-eq-ok (check_ids [] gs) _ h in
        ((check_ids-ok [] gs ids).1, (check_builders_iff c.global.builder gs).0 builders),
    λ (unique, builders).
        rw (ok-check_ids [] gs (none_yet gs) unique)
          ((check_builders_iff c.global.builder gs).1 builders),
  )
