-- ===== src/Engine/Builds/Outputs.antt =====
-- What the jobs of doBuild leave for each group.
use testground.Base.{
  ℕ, ◌<◌, ◌≡◌, ◌≢◌, refl, ◌∙◌, inl, String, Bool, true, false, not, ◌&&◌, Option, some, List, [],
  ◌==◌, length, get_elem?, All, arith, subst,
}
use testground.Base.Maps.{Map}
use testground.Base.Errors.{ok, fail_if, >>=-eq-ok}
use testground.Api.Composition.{Group}
use testground.Engine.Builds.{
  EngineError, BuildOutput, BuildWorld, index_groups, run_jobs, no_outputs, build_groups,
}
use testground.Engine.Builds.Index.{
  IsKeyed, IsCovered, index_groups-IsKeyed, index_groups-IsCovered, index_groups-succeeds,
}
use testground.Engine.Builds.Jobs.{
  IsOutput, AllBuild, run_jobs-AllOutputs, length-run_jobs, run_jobs-IsFilled, none_made,
  length-no_outputs, run_jobs-succeeds,
}

-- the copies are made, or are not needed
fail_if-copies :
    (alone made : Bool) (e : EngineError) → made ≡ true → fail_if (not alone && not made) e ≡ ok tt
fail_if-copies true made e h = refl
fail_if-copies false true e h = refl
fail_if-copies false false e h = cc h

module _ {F : Type 0} (world : BuildWorld F) (plan : String) (grps : List (Group F)) where
  -- an output for each group
  abbrev pub AreOutputs : List (Option BuildOutput) → Type 0
  AreOutputs ress =
      (length ress ≡ length grps)
      × ((j : ℕ)
          → j < length grps
          → (out : BuildOutput) × (get_elem? ress j ≡ some (some out))
            × IsOutput world plan grps j out)

  index-IsKeyed :
      (uniq : Map (List ℕ))
      → index_groups world.encode grps 0 [] ≡ ok uniq
      → All (IsKeyed world.encode grps) uniq
  index-IsKeyed uniq indexed =
      index_groups-IsKeyed world.encode grps grps 0 [] uniq
        (λ i m g total at_i. subst (λ x. get_elem? grps x ≡ some g) (omega arith) at_i) tt indexed

  index-IsCovered :
      (uniq : Map (List ℕ))
      → index_groups world.encode grps 0 [] ≡ ok uniq
      → IsCovered world.encode grps (length grps) uniq
  index-IsCovered uniq indexed =
      index_groups-IsCovered world.encode grps grps 0 (length grps) [] uniq (omega arith)
        (λ j lt. absurd (omega arith)) indexed

  run_jobs-AreOutputs :
      (uniq : Map (List ℕ)) (ress : List (Option BuildOutput))
      → index_groups world.encode grps 0 [] ≡ ok uniq
      → run_jobs world plan grps (length uniq) uniq 0 (no_outputs world grps) ≡ ok ress
      → AreOutputs ress
  run_jobs-AreOutputs uniq ress indexed ran =
      let n = length uniq in
      let start = no_outputs world grps in
      let as_long = length-no_outputs world grps in
      (
        length-run_jobs world plan grps n uniq 0 start ress ran ∙ as_long,
        λ j inside.
            let (out, there) =
              run_jobs-IsFilled world plan grps n uniq 0 start ress j (omega (arith, as_long))
                (inl (index-IsCovered uniq indexed j inside)) ran in
            (
              out,
              there,
              run_jobs-AllOutputs world plan grps n uniq 0 start ress (index-IsKeyed uniq indexed)
                  (none_made world plan grps) ran j out there,
            ),
      )

  -- When the jobs of a composition's groups end without an error, each group has an output, and it
  -- is that of a job for groups whose build key is its own.
  pub build_groups-AreOutputs :
      (ress : List (Option BuildOutput)) → build_groups world plan grps ≡ ok ress → AreOutputs ress
  unfolding build_groups
  build_groups-AreOutputs ress e =
      let (uniq, indexed, further) = >>=-eq-ok (index_groups world.encode grps 0 []) _ e in
      let (u, copied, ran) =
        >>=-eq-ok (fail_if (not (length uniq == 1) && not world.copies) EngineError.no_copies)
          (λ _. run_jobs world plan grps (length uniq) uniq 0 (no_outputs world grps)) further in
      run_jobs-AreOutputs uniq ress indexed ran

  -- When each group of a composition has a builder and builds by itself, and the sources can be
  -- copied, all the jobs succeed, each group has an output, and it is that of a job for groups
  -- whose build key is its own.
  pub build_groups_succeeds :
      All (λ (g : Group F). g.builder ≢ "") grps
      → AllBuild world plan grps
      → world.copies ≡ true
      → (ress : List (Option BuildOutput)) × (build_groups world plan grps ≡ ok ress)
        × AreOutputs ress
  unfolding build_groups
  build_groups_succeeds named builds copied =
      let (uniq, indexed) = index_groups-succeeds world.encode grps grps 0 [] named in
      let (ress, ran) =
        run_jobs-succeeds world plan grps (length uniq) uniq 0 (no_outputs world grps) builds
          (index-IsKeyed uniq indexed) in
      (
        ress,
        rw indexed
            (rw (fail_if-copies (length uniq == 1) world.copies EngineError.no_copies copied) ran),
        run_jobs-AreOutputs uniq ress indexed ran,
      )
