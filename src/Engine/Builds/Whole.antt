-- ===== src/Engine/Builds/Whole.antt =====
-- doBuild as a whole: what has passed when it returns its outputs.
use testground.Base.{◌≡◌, ap, subst, String, Option, none, some, List, [], ◌∷◌, All}
use testground.Base.Maps.{Map, lookup}
use testground.Base.Errors.{Fallible, ok, err, panic, >>=-eq-ok}
use testground.Base.Actions.{>>=-ends}
use testground.Api.Composition.{Group, Composition, CompositionError}
use testground.Api.Manifest.{TestPlanManifest}
use testground.Api.Groups.{read_all}
use testground.Api.Prepare.{prepare_for_build, list_builders}
use testground.Api.Validate.{validate_for_build}
use testground.Engine.Builds.{
  EngineError, Builder, BuildOutput, BuildWorld, of_composition, check_health, deref_builder,
  check_known, check_builders_health, build_groups, do_build, prepare, build_prepared, build_with,
}
use testground.Engine.Builds.Outputs.{AreOutputs, build_groups-AreOutputs}

pub of_composition-ok {ℓ} :
    {A : Type ℓ} (r : Fallible CompositionError A) (a : A) → of_composition r ≡ ok a → r ≡ ok a
of_composition-ok (ok x) a e = cc e
of_composition-ok (err x) a e = cc e
of_composition-ok panic a e = cc e

deref_builder-ok : (o : Option Builder) (bm : Builder) → deref_builder o ≡ ok bm → o ≡ some bm
deref_builder-ok none bm e = cc e
deref_builder-ok (some b) bm e = cc e

-- a builder that is there, and whose healthcheck and fixes passed where it has them
abbrev pub IsReady : Map Builder → String → Type 0
IsReady builders b =
    (bm : Builder) × (lookup b builders ≡ some bm) × (check_health bm.healthcheck ≡ ok tt)

check_builders_health-IsReady :
    (builders : Map Builder) (bs : List String)
    → check_builders_health builders bs ≡ ok tt
    → All (IsReady builders) bs
unfolding check_builders_health
check_builders_health-IsReady builders [] e = tt
check_builders_health-IsReady builders (b ∷ bs) e =
    let (bm, found, further) = >>=-eq-ok (deref_builder (lookup b builders)) _ e in
    let (u, healthy, others) =
      >>=-eq-ok (check_health bm.healthcheck) (λ _. check_builders_health builders bs) further in
    (
      (bm, deref_builder-ok (lookup b builders) bm found, healthy),
      check_builders_health-IsReady builders bs others,
    )

module _ {F : Type 0} (world : BuildWorld F) (manifest : TestPlanManifest) (c : Composition) where
  -- the outputs of the prepared composition's groups, and what had to pass before they were made
  abbrev pub IsBuilt : List (Group F) → List (Option BuildOutput) → List (Group F) → Type 0
  IsBuilt heap ress heap' =
      (comp : Composition) × (used : List String) × (grps : List (Group F)) × ◌≡◌
        {A = Fallible CompositionError Composition × List (Group F)}
        (prepare_for_build manifest c heap) (ok comp, heap')
      × (validate_for_build world.is_valid_except comp heap' ≡ ok tt)
      × (list_builders comp heap' ≡ ok used)
      × All (IsReady world.builders) used
      × (read_all {E = CompositionError} comp.groups heap' ≡ ok grps)
      × AreOutputs world (world.clean comp.global.plan) grps ress

  -- When doBuild returns outputs, it has prepared and validated the composition, each builder that
  -- the groups use is there and passed its healthcheck, and the outputs are one for each group of
  -- the prepared composition, made by a job for groups whose build key is its own.
  pub do_build_correct :
      (heap heap' : List (Group F)) (ress : List (Option BuildOutput))
      → ◌≡◌ {A = Fallible EngineError (List (Option BuildOutput)) × List (Group F)}
          (do_build world manifest c heap)
          (ok ress, heap')
      → IsBuilt heap ress heap'
  unfolding do_build build_prepared
  do_build_correct heap heap' ress e =
      let (comp, prepared, ran) =
        >>=-ends (prepare world manifest c) (λ x h. (build_prepared world x h, h)) heap e in
      let h = (prepare_for_build manifest c heap).1 in
      let same : h ≡ heap' = ap (λ x. x.1) ran in
      let passed : build_prepared world comp h ≡ ok ress = ap (λ x. x.0) ran in
      let (u, valid, from_here) =
        >>=-eq-ok (of_composition (validate_for_build world.is_valid_except comp h)) _ passed in
      let (used, listed, from_there) =
        >>=-eq-ok (of_composition (list_builders comp h)) (build_with world comp h) from_here in
      let (u', known, on) = >>=-eq-ok (check_known world.builders used) _ from_there in
      let (u'', healthy, further) = >>=-eq-ok (check_builders_health world.builders used) _ on in
      let (grps, read, built) =
        >>=-eq-ok (of_composition (read_all comp.groups h))
          (build_groups world (world.clean comp.global.plan)) further in
      subst (IsBuilt heap ress) same (
        comp,
        used,
        grps,
        ap (λ r. (r, h)) (of_composition-ok _ comp prepared),
        of_composition-ok _ tt valid,
        of_composition-ok _ used listed,
        check_builders_health-IsReady world.builders used healthy,
        of_composition-ok _ grps read,
        build_groups-AreOutputs world (world.clean comp.global.plan) grps ress built,
      )
