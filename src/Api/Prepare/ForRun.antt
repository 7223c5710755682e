-- ===== src/Api/Prepare/ForRun.antt =====
-- What PrepareForRun asks for and what it makes of each group.
use testground.Base.{ℕ, ◌≡◌, refl, String, false, Option, none, some, List}
use testground.Base.Maps.{Map}
use testground.Base.Errors.{Fallible, ok, fail_if, fail_if-ok}
use testground.Base.Actions.{continue-ends}
use testground.Api.Composition.{
  Run, Group, Composition, CompositionError, to_int, no_runners, no_test_case, unsupported_runner,
  instances_out_of_range,
}
use testground.Api.Manifest.{TestPlanManifest, TestCase, test_case_by_name, keys}
use testground.Api.Groups.{
  for_each, AllInside, AllDistinct, Written, Written-then, Written-id, AllInside-size,
  for_each_total,
}
use testground.Api.Prepare.{
  is_empty, fill_run, fill_params, no_check, merged_config, trickle_run, prepare_for_run,
  refuses_runner, out_of_range, default_params, or_missing,
}

-- the composition that PrepareForRun returns
abbrev pub with_run_config : TestPlanManifest → Composition → Composition
with_run_config manifest c = record c {
  global = record c.global {
    plan = manifest.name;
    run_config = merged_config manifest.runners c.global.runner c.global.run_config;
  };
}

-- what PrepareForRun asks for
pub record IsRunnable (manifest : TestPlanManifest) (c : Composition) : Type 0 where
  pub tcase : TestCase
  pub defaults : Map String
  pub found : test_case_by_name manifest c.global.case ≡ some tcase
  pub some_runner : is_empty manifest.runners ≡ false
  pub runner_passes : refuses_runner (keys manifest.runners) c.global.runner ≡ false
  pub in_range : out_of_range (to_int c.global.total_instances) tcase ≡ false
  pub encodes : default_params tcase.parameters ≡ ok defaults

or_missing-ok :
    {A : Type 0} (e : CompositionError) (found : Option A) {a : A}
    → or_missing e found ≡ ok a
    → found ≡ some a
or_missing-ok e none h = cc
or_missing-ok e (some a) h = cc

module _ {F : Type 0} where
  abbrev pub run_effect : Option Run → Group F → Group F
  run_effect none g = g
  run_effect (some def) g = fill_run def g

  -- what PrepareForRun leaves in a group
  abbrev pub run_prepared : Option Run → Map String → Group F → Group F
  run_prepared def defaults g = fill_params defaults (run_effect def g)

  trickle_run_total :
      (def : Option Run) (ps : List ℕ) (heap : List (Group F))
      → AllInside ps heap
      → AllDistinct ps
      → (heap' : List (Group F)) × (trickle_run def ps heap ≡ (ok tt, heap'))
        × Written (run_effect def) ps heap heap'
  trickle_run_total none ps heap inside distinct = (heap, refl, Written-id ps heap)
  trickle_run_total (some def) ps heap inside distinct =
      for_each_total (fill_run def) ps heap inside distinct

  module _ (manifest : TestPlanManifest) (c : Composition) where
    prepare_for_run-run :
        (heap h₁ h₂ : List (Group F)) (r : IsRunnable manifest c)
        → trickle_run c.global.run c.groups heap ≡ (ok tt, h₁)
        → for_each {E = CompositionError} (fill_params r.defaults) (λ g. none) c.groups h₁
          ≡ (ok tt, h₂)
        → prepare_for_run manifest c heap ≡ (ok (with_run_config manifest c), h₂)
    unfolding prepare_for_run
    prepare_for_run-run heap h₁ h₂ r e₁ e₂ =
        rw r.found
          (rw r.some_runner (rw r.runner_passes (rw r.in_range (rw e₁ (rw r.encodes (rw e₂))))))

    -- PrepareForRun accepts what satisfies its checks: it returns the composition with the plan's
    -- name and the merged runner configuration, and leaves each of its distinct groups in place
    -- `run_prepared`, and no other group changed.
    pub prepare_for_run_accepts :
        (heap : List (Group F)) (r : IsRunnable manifest c)
        → AllInside c.groups heap
        → AllDistinct c.groups
        → (heap' : List (Group F)) × (prepare_for_run manifest c heap
            ≡ (ok (with_run_config manifest c), heap'))
          × Written (run_prepared c.global.run r.defaults) c.groups heap heap'
    prepare_for_run_accepts heap r inside distinct =
        let (h₁, e₁, w₁) = trickle_run_total c.global.run c.groups heap inside distinct in
        let inside₁ = AllInside-size c.groups heap h₁ w₁.size inside in
        let (h₂, e₂, w₂) =
          for_each_total {E = CompositionError} (fill_params r.defaults) c.groups h₁ inside₁
            distinct in
        (h₂, prepare_for_run-run heap h₁ h₂ r e₁ e₂, Written-then _ _ c.groups heap h₁ h₂ w₁ w₂)

    -- What PrepareForRun returns passed the checks, and is the composition with the plan's name
    -- and the merged runner configuration.
    pub prepare_for_run_checks :
        (heap heap' : List (Group F)) (c' : Composition)
        → ◌≡◌ {A = Fallible CompositionError Composition × List (Group F)}
            (prepare_for_run manifest c heap)
            (ok c', heap')
        → IsRunnable manifest c × (c' ≡ with_run_config manifest c)
    unfolding prepare_for_run
    prepare_for_run_checks heap heap' c' h =
        let t = to_int c.global.total_instances in
        let (tcase, found, h₁) =
          continue-ends
            (or_missing (no_test_case c.global.case) (test_case_by_name manifest c.global.case)) _
            heap h in
        let (_, some_runner, h₂) =
          continue-ends (fail_if (is_empty manifest.runners) no_runners) _ heap h₁ in
        let (_, runner_passes, h₃) =
          continue-ends
            (fail_if (refuses_runner (keys manifest.runners) c.global.runner)
              (unsupported_runner c.global.runner))
            _ heap h₂ in
        let (_, in_range, h₄) =
          continue-ends (fail_if (out_of_range t tcase) (instances_out_of_range t)) _ heap h₃ in
        let (_, trickled, h₅) = continue-ends (trickle_run c.global.run c.groups heap).0 _ _ h₄ in
        let (defaults, encodes, h₆) = continue-ends (default_params tcase.parameters) _ _ h₅ in
        let (_, filled, h₇) =
          continue-ends (for_each (fill_params defaults) no_check c.groups _).0 _ _ h₆ in
        (
          record {
            tcase = tcase;
            defaults = defaults;
            found =
                or_missing-ok (no_test_case c.global.case)
                  (test_case_by_name manifest c.global.case) found;
            some_runner = fail_if-ok _ _ some_runner;
            runner_passes = fail_if-ok _ _ runner_passes;
            in_range = fail_if-ok _ _ in_range;
            encodes = encodes;
          },
          cc h₇,
        )
