-- ===== src/Engine/Builds/Jobs.antt =====
-- The jobs of doBuild, one for each build key.
use testground.Base.{
  ℕ, zero, suc, ◌<◌, ◌≡◌, ◌≢◌, refl, sym, ap, ◌∙◌, ◌⊎◌, inl, inr, String, Option, some, List, [],
  ◌∷◌, ◌==◌, ==_iff, length, get_elem?, set, All, arith, subst, str_eq, Bool-cases, length-set,
  get_elem?-set_self, get_elem?-set_ne, lt-length_of_get,
}
use testground.Base.Maps.{Map, lookup}
use testground.Base.Errors.{ok, >>=-eq-ok}
use testground.Task.Database.{Elem}
use testground.Api.Composition.{Group}
use testground.Engine.Builds.{
  SourceDir, BuildOutput, BuildWorld, source_of, assign, run_jobs, no_outputs, build_job,
}
use testground.Engine.Builds.Index.{HasKey, IsKeyed}

abbrev pub IsFilled : ℕ → List (Option BuildOutput) → Type 0
IsFilled j ress = (out : BuildOutput) × (get_elem? ress j ≡ some (some out))

module _ {F : Type 0} (world : BuildWorld F) where
  assign-made :
      (idxs : List ℕ) (res out : BuildOutput) (ress : List (Option BuildOutput)) (j : ℕ)
      → get_elem? (assign world idxs res ress) j ≡ some (some out)
      → (Elem j idxs × (out ≡ res)) ⊎ (get_elem? ress j ≡ some (some out))
  assign-made [] res out ress j e = inr e
  assign-made (idx ∷ idxs) res out ress j e =
      elim (assign-made idxs res out (set ress idx (some res)) j e) [
        | inl (among, same) ↦ inl (inr among, same)
        | inr before ↦ elim (Bool-cases (j == idx)) [
          | inl here ↦
              let is_here = (==_iff j idx).0 here in
              let inside = lt-length_of_get (set ress idx (some res)) j before in
              let written =
                get_elem?-set_self ress idx (some res)
                  (omega (arith, inside, is_here, length-set ress idx (some res))) in
              inl (inl is_here, cc (before, written, is_here))
          | inr apart ↦ inr (
              sym (
                get_elem?-set_ne ress {i = idx} {j = j} (some res)
                  (λ q. ground (arith, ==_iff j idx)))
              ∙ before)
        ]
      ]

  length-assign :
      (idxs : List ℕ) (res : BuildOutput) (ress : List (Option BuildOutput))
      → length (assign world idxs res ress) ≡ length ress
  length-assign [] res ress = refl
  length-assign (idx ∷ idxs) res ress =
      length-assign idxs res (set ress idx (some res)) ∙ length-set ress idx (some res)

  set-IsFilled :
      (idx : ℕ) (res : BuildOutput) (ress : List (Option BuildOutput)) (j : ℕ)
      → j < length ress
      → (j ≡ idx) ⊎ IsFilled j ress
      → IsFilled j (set ress idx (some res))
  set-IsFilled idx res ress j inside h = elim (Bool-cases (j == idx)) [
    | inl here ↦ (
      res,
      subst (λ x. get_elem? (set ress x (some res)) j ≡ some (some res)) ((==_iff j idx).0 here)
          (get_elem?-set_self ress j (some res) inside),
    )
    | inr apart ↦ elim h [
      | inl same ↦ absurd (ground (arith, ==_iff j idx))
      | inr (out, filled) ↦ (
        out,
        get_elem?-set_ne ress {i = idx} {j = j} (some res) (λ q. ground (arith, ==_iff j idx))
            ∙ filled,
      )
    ]
  ]

  assign-IsFilled :
      (idxs : List ℕ) (res : BuildOutput) (ress : List (Option BuildOutput)) (j : ℕ)
      → j < length ress
      → Elem j idxs ⊎ IsFilled j ress
      → IsFilled j (assign world idxs res ress)
  assign-IsFilled [] res ress j inside (inr h) = h
  assign-IsFilled [] res ress j inside (inl h) = absurd h
  assign-IsFilled (idx ∷ idxs) res ress j inside (inl (inr among)) =
      assign-IsFilled idxs res (set ress idx (some res)) j
        (omega (arith, length-set ress idx (some res))) (inl among)
  assign-IsFilled (idx ∷ idxs) res ress j inside (inl (inl here)) =
      assign-IsFilled idxs res (set ress idx (some res)) j
        (omega (arith, length-set ress idx (some res)))
        (inr (set-IsFilled idx res ress j inside (inl here)))
  assign-IsFilled (idx ∷ idxs) res ress j inside (inr h) =
      assign-IsFilled idxs res (set ress idx (some res)) j
        (omega (arith, length-set ress idx (some res)))
        (inr (set-IsFilled idx res ress j inside (inr h)))

  no_outputs-empty :
      (grps : List (Group F)) (j : ℕ) (out : BuildOutput)
      → get_elem? (no_outputs world grps) j ≢ some (some out)
  no_outputs-empty [] j out e = cc e
  no_outputs-empty (g ∷ grps) zero out e = cc e
  no_outputs-empty (g ∷ grps) (suc j) out e = no_outputs-empty grps j out e

  pub length-no_outputs : (grps : List (Group F)) → length (no_outputs world grps) ≡ length grps
  length-no_outputs [] = refl
  length-no_outputs (g ∷ grps) = ap suc (length-no_outputs grps)

  module _ (plan : String) (grps : List (Group F)) where
    -- an output of the group with a number: that of a job for groups of one build key
    abbrev pub IsOutput : ℕ → BuildOutput → Type 0
    IsOutput j out =
        (k : String) × (is : List ℕ) × (src : SourceDir) × Elem j is
        × All (HasKey world.encode grps k) is
        × (build_job world plan grps src is ≡ ok out)

    abbrev pub AllOutputs : List (Option BuildOutput) → Type 0
    AllOutputs ress =
        (j : ℕ) (out : BuildOutput) → get_elem? ress j ≡ some (some out) → IsOutput j out

    assign-AllOutputs :
        (k : String) (is : List ℕ) (src : SourceDir) (res : BuildOutput)
        (ress : List (Option BuildOutput))
        → All (HasKey world.encode grps k) is
        → build_job world plan grps src is ≡ ok res
        → AllOutputs ress
        → AllOutputs (assign world is res ress)
    assign-AllOutputs k is src res ress keyed built before j out e =
        elim (assign-made is res out ress j e) [
          | inl (among, same) ↦ (k, is, src, among, keyed, built ∙ ap ok (sym same))
          | inr old ↦ before j out old
        ]

    pub run_jobs-AllOutputs :
        (uniqcnt : ℕ) (uniq : Map (List ℕ)) (cnt : ℕ) (ress out : List (Option BuildOutput))
        → All (IsKeyed world.encode grps) uniq
        → AllOutputs ress
        → run_jobs world plan grps uniqcnt uniq cnt ress ≡ ok out
        → AllOutputs out
    unfolding run_jobs
    run_jobs-AllOutputs uniqcnt [] cnt ress out keyed before e = subst AllOutputs (cc e) before
    run_jobs-AllOutputs uniqcnt ((k, is) ∷ uniq) cnt ress out keyed before e =
        let (res, built, further) =
          >>=-eq-ok (build_job world plan grps (source_of uniqcnt cnt) is) _ e in
        run_jobs-AllOutputs uniqcnt uniq (suc cnt) (assign world is res ress) out keyed.1
          (assign-AllOutputs k is (source_of uniqcnt cnt) res ress keyed.0.1 built before) further

    pub length-run_jobs :
        (uniqcnt : ℕ) (uniq : Map (List ℕ)) (cnt : ℕ) (ress out : List (Option BuildOutput))
        → run_jobs world plan grps uniqcnt uniq cnt ress ≡ ok out
        → length out ≡ length ress
    unfolding run_jobs
    length-run_jobs uniqcnt [] cnt ress out e = ap length (cc e)
    length-run_jobs uniqcnt ((k, is) ∷ uniq) cnt ress out e =
        let (res, built, further) =
          >>=-eq-ok (build_job world plan grps (source_of uniqcnt cnt) is) _ e in
        length-run_jobs uniqcnt uniq (suc cnt) (assign world is res ress) out further
        ∙ length-assign is res ress

    -- the group with a number is one of a job that is still to come
    abbrev pub IsAhead : ℕ → Map (List ℕ) → Type 0
    IsAhead j uniq = (k : String) × (is : List ℕ) × (lookup k uniq ≡ some is) × Elem j is

    IsAhead-tail :
        (j : ℕ) (name : String) (first : List ℕ) (uniq : Map (List ℕ))
        → IsAhead j ((name, first) ∷ uniq)
        → Elem j first ⊎ IsAhead j uniq
    unfolding lookup
    IsAhead-tail j name first uniq (k, is, there, among) = elim (Bool-cases (str_eq name k)) [
      | inl same ↦ inl (subst (Elem j) (cc (rw same at there)) among)
      | inr differ ↦ inr (k, is, rw differ at there, among)
    ]

    pub run_jobs-IsFilled :
        (uniqcnt : ℕ) (uniq : Map (List ℕ)) (cnt : ℕ) (ress out : List (Option BuildOutput)) (j : ℕ)
        → j < length ress
        → IsAhead j uniq ⊎ IsFilled j ress
        → run_jobs world plan grps uniqcnt uniq cnt ress ≡ ok out
        → IsFilled j out
    unfolding run_jobs lookup
    run_jobs-IsFilled uniqcnt [] cnt ress out j inside h e = elim h [
      | inl (k, is, there, among) ↦ cc there
      | inr filled ↦ subst (IsFilled j) (cc e) filled
    ]
    run_jobs-IsFilled uniqcnt ((k, is) ∷ uniq) cnt ress out j inside h e =
        let (res, built, further) =
          >>=-eq-ok (build_job world plan grps (source_of uniqcnt cnt) is) _ e in
        let next : Elem j is ⊎ IsFilled j ress → IsFilled j out = λ f.
          run_jobs-IsFilled uniqcnt uniq (suc cnt) (assign world is res ress) out j
            (omega (arith, length-assign is res ress))
            (inr (assign-IsFilled is res ress j inside f)) further in
        elim h [
          | inl ahead ↦ elim (IsAhead-tail j k is uniq ahead) [
            | inl here ↦ next (inl here)
            | inr later ↦
                run_jobs-IsFilled uniqcnt uniq (suc cnt) (assign world is res ress) out j
                  (omega (arith, length-assign is res ress)) (inl later) further
          ]
          | inr filled ↦ next (inr filled)
        ]

    pub none_made : AllOutputs (no_outputs world grps)
    none_made j out e = absurd (no_outputs-empty grps j out e)

    -- each group's own build succeeds, from whatever sources
    abbrev pub AllBuild : Type 0
    AllBuild =
        (j : ℕ)
        → j < length grps
        → (src : SourceDir)
        → (out : BuildOutput) × (build_job world plan grps src (j ∷ []) ≡ ok out)

    pub run_jobs-succeeds :
        (uniqcnt : ℕ) (uniq : Map (List ℕ)) (cnt : ℕ) (ress : List (Option BuildOutput))
        → AllBuild
        → All (IsKeyed world.encode grps) uniq
        → (out : List (Option BuildOutput)) × (run_jobs world plan grps uniqcnt uniq cnt ress
            ≡ ok out)
    unfolding run_jobs build_job
    run_jobs-succeeds uniqcnt [] cnt ress builds keyed = (ress, refl)
    run_jobs-succeeds uniqcnt ((k, []) ∷ uniq) cnt ress builds keyed =
        absurd (omega (arith, keyed.0.0))
    run_jobs-succeeds uniqcnt ((k, i ∷ is) ∷ uniq) cnt ress builds keyed =
        let (g, d, at_i, key, own) = keyed.0.1.0 in
        let (res, built) = builds i (lt-length_of_get grps i at_i) (source_of uniqcnt cnt) in
        rw built
          (run_jobs-succeeds uniqcnt uniq (suc cnt) (assign world (i ∷ is) res ress) builds keyed.1)
