-- ===== src/Api/Validate.antt =====
-- pkg/api/composition.go: the validation of a composition. The checks of the validator library on
-- the structure of a composition are a parameter.
pub mod Unique
pub mod Runs
use testground.Base.{
  ℕ, ◌+◌, String, Bool, true, false, not, ◌||◌, ◌&&◌, Option, none, some, List, [], ◌∷◌, str_eq,
  ◌==◌, ◌%◌, if◌then◌else◌, get_elem?, set,
}
use testground.Base.Maps.{Map, lookup, insert}
use testground.Base.Errors
use testground.Base.Errors.{Fallible, ok, err, panic, fail_if}
use testground.Base.Actions.{Action, pure, lift, ◌>>=◌, ◌>>◌}
use testground.Api.Composition.{
  Float64, u64_mod, Instances, Group, Composition, CompositionError, invalid_structure,
  duplicate_group, missing_builder, instances_mismatch,
}
use testground.Api.Groups.{read_all}

abbrev pub is_some {ℓ} : {A : Type ℓ} → Option A → Bool
is_some none = false
is_some (some a) = true

module _ {F : Type 0} where
  -- the first loop of Groups.Validate
  unfoldable pub check_ids : Map (Unit {0}) → List (Group F) → Fallible CompositionError (Unit {0})
  check_ids m [] = ok tt
  check_ids m (g ∷ gs) =
      Errors.◌>>◌ (fail_if (is_some (lookup g.id m)) (duplicate_group g.id))
        (check_ids (insert g.id tt m) gs)

  -- the second
  unfoldable pub check_builders : String → List (Group F) → Fallible CompositionError (Unit {0})
  check_builders global_builder [] = ok tt
  check_builders global_builder (g ∷ gs) =
      Errors.◌>>◌ (fail_if (str_eq g.builder "" && str_eq global_builder "") (missing_builder g.id))
        (check_builders global_builder gs)

  -- Groups.Validate
  unfoldable pub validate_groups :
      Composition → List (Group F) → Fallible CompositionError (Unit {0})
  validate_groups c heap =
      Errors.◌>>=◌ (read_all c.groups heap)
        (λ gs. Errors.◌>>◌ (check_ids [] gs) (check_builders c.global.builder gs))

  -- ValidateForBuild
  unfoldable pub validate_for_build :
      (Composition → List (Group F) → Bool)
      → Composition
      → List (Group F)
      → Fallible CompositionError (Unit {0})
  validate_for_build is_valid_except c heap =
      Errors.◌>>◌ (fail_if (not (is_valid_except c heap)) invalid_structure)
        (validate_groups c heap)

-- ValidateInstances: whether it reports nothing
unfoldable pub validate_instances : (float : Float64) → Instances float.F → Bool
validate_instances float instances =
    ((instances.count == 0) || float.is_zero instances.percentage)
    && float.sum_positive instances.count instances.percentage

module _ (float : Float64) where
  abbrev pub instances_of : ℕ → Group float.F → ℕ
  instances_of total g =
      if g.instances.count == 0 then float.share g.instances.percentage total else g.instances.count

  -- what ValidateForRun writes to a group
  abbrev pub with_count : ℕ → Group float.F → Group float.F
  with_count total g = record g { calculated_instance_cnt = instances_of total g }

  -- the loop of ValidateForRun; `cum` wraps around
  unfoldable pub count_instances : ℕ → ℕ → List ℕ → Action (List (Group float.F)) CompositionError ℕ
  count_instances total cum [] heap = (ok cum, heap)
  count_instances total cum (p ∷ ps) heap = elim (get_elem? heap p) [
    | none ↦ (panic, heap)
    | some g ↦
        count_instances total ((cum + (with_count total g).calculated_instance_cnt) % u64_mod) ps
          (set heap p (with_count total g))
  ]

  -- ValidateForRun
  unfoldable pub validate_for_run :
      (Composition → List (Group float.F) → Bool)
      → Composition
      → Action (List (Group float.F)) CompositionError (Unit {0})
  validate_for_run is_valid c = do
    valid ← λ heap. (ok (is_valid c heap), heap)
    lift (fail_if (not valid) invalid_structure)
    cum ← count_instances c.global.total_instances 0 c.groups
    lift (
        fail_if (not (c.global.total_instances == cum))
          (instances_mismatch c.global.total_instances cum))
    λ heap. (validate_groups c heap, heap)
