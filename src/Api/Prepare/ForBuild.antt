-- ===== src/Api/Prepare/ForBuild.antt =====
-- What PrepareForBuild makes of each group.
use testground.Base.{
  ℕ, ◌≡◌, ◌⊎◌, refl, sym, ◌∙◌, String, true, false, Option, none, some, List, [], ◌∷◌, str_eq,
  if◌then◌else◌, arith, inl, inr, get_elem?,
}
use testground.Base.Maps.{Map, lookup, lookup-add_missing, or_else}
use testground.Base.Errors.{Fallible, ok, err}
use testground.Base.Actions.{continue}
use testground.Task.Database.{Elem}
use testground.Api.Composition.{
  ConfigMap, Build, Group, Composition, CompositionError, unsupported_builder,
}
use testground.Api.Manifest.{TestPlanManifest, has_builder}
use testground.Api.Groups.{
  for_each, AllInside, AllDistinct, Written, Written-then, Written-id, AllInside-size, for_each_lem,
  for_each_total, get_of_Elem,
}
use testground.Api.Prepare.{
  entries, fill_map, is_empty, fill_build, fill_config, fill_builder, check_builder, merged_config,
  trickle_build, trickle_config, prepare_for_build, builder_of,
}

-- the composition that PrepareForBuild returns
abbrev pub with_build_config : TestPlanManifest → Composition → Composition
with_build_config manifest c = record c {
  global = record c.global {
    plan = manifest.name;
    build_config = merged_config manifest.builders c.global.builder c.global.build_config;
  };
}

-- the build configuration that the groups are filled from
abbrev pub config_of : TestPlanManifest → Composition → ConfigMap
config_of manifest c =
    entries (merged_config manifest.builders c.global.builder c.global.build_config)

pub or_else-none {ℓ} : {A : Type ℓ} → (a : Option A) → or_else a none ≡ a
or_else-none none = refl
or_else-none (some a) = refl

-- The merged configuration has the composition's value, or else the manifest's.
pub lookup-merged_config :
    (configs : Map ConfigMap) (name : String) (own : Option ConfigMap) (k : String)
    → lookup k (entries (merged_config configs name own))
      ≡ or_else (lookup k (entries own)) (lookup k (entries (lookup name configs)))
unfolding lookup
lookup-merged_config configs name own k = merged (lookup name configs)
  where
    merged :
        (found : Option ConfigMap)
        → lookup k (entries (elim found [ none ↦ own | some cfg ↦ fill_map cfg own ]))
          ≡ or_else (lookup k (entries own)) (lookup k (entries found))
    merged none = sym (or_else-none (lookup k (entries own)))
    merged (some cfg) = lookup-add_missing k cfg (entries own)

module _ {F : Type 0} where
  abbrev pub build_effect : Option Build → Group F → Group F
  build_effect none g = g
  build_effect (some def) g = fill_build def g

  abbrev pub config_effect : ConfigMap → Group F → Group F
  config_effect [] g = g
  config_effect (e ∷ config) g = fill_config (e ∷ config) g

  -- what PrepareForBuild leaves in a group
  abbrev pub prepared : Option Build → ConfigMap → String → Group F → Group F
  prepared def config builder g = fill_builder builder (config_effect config (build_effect def g))

  trickle_build_total :
      (def : Option Build) (ps : List ℕ) (heap : List (Group F))
      → AllInside ps heap
      → AllDistinct ps
      → (heap' : List (Group F)) × (trickle_build def ps heap ≡ (ok tt, heap'))
        × Written (build_effect def) ps heap heap'
  trickle_build_total none ps heap inside distinct = (heap, refl, Written-id ps heap)
  trickle_build_total (some def) ps heap inside distinct =
      for_each_total (fill_build def) ps heap inside distinct

  trickle_config_total :
      (config : ConfigMap) (ps : List ℕ) (heap : List (Group F))
      → AllInside ps heap
      → AllDistinct ps
      → (heap' : List (Group F)) × (trickle_config config ps heap ≡ (ok tt, heap'))
        × Written (config_effect config) ps heap heap'
  trickle_config_total [] ps heap inside distinct = (heap, refl, Written-id ps heap)
  trickle_config_total (e ∷ config) ps heap inside distinct =
      for_each_total (fill_config (e ∷ config)) ps heap inside distinct

  module _ (manifest : TestPlanManifest) (c : Composition) where
    prepare_for_build-run :
        (heap h₁ h₂ : List (Group F))
        → is_empty manifest.builders ≡ false
        → trickle_build c.global.build c.groups heap ≡ (ok tt, h₁)
        → trickle_config (config_of manifest c) c.groups h₁ ≡ (ok tt, h₂)
        → prepare_for_build manifest c heap
          ≡ continue
              (for_each
                (fill_builder c.global.builder)
                (check_builder manifest c.global.builder)
                c.groups
                h₂).0
              (λ _ s. (ok (with_build_config manifest c), s))
              (for_each
                (fill_builder c.global.builder)
                (check_builder manifest c.global.builder)
                c.groups
                h₂).1
    unfolding prepare_for_build
    prepare_for_build-run heap h₁ h₂ some_builder e₁ e₂ = rw some_builder (rw e₁ (rw e₂))

    abbrev last_loop : List (Group F) → Fallible CompositionError (Unit {0}) × List (Group F)
    last_loop h =
        for_each (fill_builder c.global.builder) (check_builder manifest c.global.builder) c.groups
          h

    -- a group as PrepareForBuild leaves it
    abbrev pub after : Group F → Group F
    after = prepared c.global.build (config_of manifest c) c.global.builder

    finish :
        (heap h₁ h₂ h₃ : List (Group F))
        → is_empty manifest.builders ≡ false
        → trickle_build c.global.build c.groups heap ≡ (ok tt, h₁)
        → trickle_config (config_of manifest c) c.groups h₁ ≡ (ok tt, h₂)
        → last_loop h₂ ≡ (ok tt, h₃)
        → prepare_for_build manifest c heap ≡ (ok (with_build_config manifest c), h₃)
    finish heap h₁ h₂ h₃ e e₁ e₂ e₃ = prepare_for_build-run heap h₁ h₂ e e₁ e₂ ∙ rw e₃

    fail :
        (heap h₁ h₂ : List (Group F)) (x : CompositionError)
        → is_empty manifest.builders ≡ false
        → trickle_build c.global.build c.groups heap ≡ (ok tt, h₁)
        → trickle_config (config_of manifest c) c.groups h₁ ≡ (ok tt, h₂)
        → (last_loop h₂).0 ≡ err x
        → (prepare_for_build manifest c heap).0 ≡ err x
    fail heap h₁ h₂ x e e₁ e₂ e₃ = rw (prepare_for_build-run heap h₁ h₂ e e₁ e₂) (rw e₃)

    passes :
        (g : Group F)
        → check_builder manifest c.global.builder g ≡ none
        → has_builder manifest g.builder ≡ true
    passes g h = ground arith

    refuses :
        (x : CompositionError) (g : Group F)
        → check_builder manifest c.global.builder (fill_builder c.global.builder g) ≡ some x
        → (x ≡ unsupported_builder c.global.builder)
          × (has_builder manifest (fill_builder c.global.builder g).builder ≡ false)
    refuses x g h = ground arith

    -- PrepareForBuild, of a plan with builders and of distinct groups, ends in one of two ways. It
    -- returns the composition with the plan's name and the merged configuration, each of its groups
    -- in place `prepared` with a builder that the plan supports, and no other group changed. Or
    -- some group has, after the defaults, a builder that the plan does not support, and it returns
    -- that error.
    pub prepare_for_build_total :
        (heap : List (Group F))
        → is_empty manifest.builders ≡ false
        → AllInside c.groups heap
        → AllDistinct c.groups
        → ((heap' : List (Group F)) × (prepare_for_build manifest c heap
              ≡ (ok (with_build_config manifest c), heap'))
            × Written after c.groups heap heap'
            × ((p : ℕ) (g : Group F)
                → Elem p c.groups
                → get_elem? heap p ≡ some g
                → has_builder manifest (after g).builder ≡ true))
          ⊎ (((prepare_for_build manifest c heap).0 ≡ err (unsupported_builder c.global.builder))
              × (p : ℕ) × (g : Group F) × Elem p c.groups
              × (get_elem? heap p ≡ some g)
              × (has_builder manifest (after g).builder ≡ false))
    prepare_for_build_total heap some_builder inside distinct =
        let (h₁, e₁, w₁) = trickle_build_total c.global.build c.groups heap inside distinct in
        let inside₁ = AllInside-size c.groups heap h₁ w₁.size inside in
        let (h₂, e₂, w₂) =
          trickle_config_total (config_of manifest c) c.groups h₁ inside₁ distinct in
        let inside₂ = AllInside-size c.groups h₁ h₂ w₂.size inside₁ in
        let w = Written-then _ _ c.groups heap h₁ h₂ w₁ w₂ in
        elim (for_each_lem (fill_builder c.global.builder) (check_builder manifest c.global.builder)
          c.groups h₂ inside₂ distinct) [
            | inl (h₃, e₃, w₃, checks) ↦ inl (
              h₃,
              finish heap h₁ h₂ h₃ some_builder e₁ e₂ e₃,
              Written-then _ _ c.groups heap h₂ h₃ w w₃,
              λ p g m at. passes (after g) (
                  checks p (config_effect (config_of manifest c) (build_effect c.global.build g)) m
                    (w.written p g m at)),
            )
            | inr (x, e₃, (p, g, m, at, refused)) ↦
                let (g₀, at₀) = get_of_Elem p c.groups heap inside m in
                let same : config_effect (config_of manifest c) (build_effect c.global.build g₀)
                    ≡ g =
                  cc (w.written p g₀ m at₀, at) in
                let (which, lacks) = refuses x g refused in
                inr (
                  fail heap h₁ h₂ _ some_builder e₁ e₂ (rw (← which) e₃),
                  p,
                  g₀,
                  m,
                  at₀,
                  rw same lacks,
                )
          ]

  build_effect-keeps :
      (def : Option Build) (g : Group F)
      → ((build_effect def g).build_config ≡ g.build_config)
        × ((build_effect def g).builder ≡ g.builder)
  unfolding fill_build
  build_effect-keeps none g = (refl, refl)
  build_effect-keeps (some def) g = (refl, refl)

  config_effect-lem :
      (config : ConfigMap) (g : Group F) (k : String)
      → (lookup k (entries (config_effect config g).build_config)
          ≡ or_else (lookup k (entries g.build_config)) (lookup k config))
        × ((config_effect config g).builder ≡ g.builder)
  unfolding fill_config lookup
  config_effect-lem [] g k = ground arith
  config_effect-lem (e ∷ config) g k =
      (lookup-add_missing k (e ∷ config) (entries g.build_config), refl)

  fill_builder-lem :
      (builder : String) (g : Group F)
      → ((fill_builder builder g).build_config ≡ g.build_config)
        × ((fill_builder builder g).builder ≡ (if str_eq g.builder "" then builder else g.builder))
  unfolding fill_builder
  fill_builder-lem builder g = ground arith

  -- What a group has for a key of the build configuration after PrepareForBuild: its own value, or
  -- else the composition's, or else the one that the manifest gives for the global builder. Its
  -- builder is its own one, or else the composition's.
  pub prepared-precedence :
      (manifest : TestPlanManifest) (c : Composition) (g : Group F) (k : String)
      → (lookup k (entries (after manifest c g).build_config)
          ≡ or_else (lookup k (entries g.build_config)) (
              or_else
                (lookup k (entries c.global.build_config))
                (lookup k (entries (lookup c.global.builder manifest.builders)))))
        × ((after manifest c g).builder ≡ builder_of c g)
  prepared-precedence manifest c g k =
      let config = config_of manifest c in
      let built = build_effect c.global.build g in
      let (same_config, same_builder) =
        fill_builder-lem c.global.builder (config_effect config built) in
      let (value, keeps) = config_effect-lem config built k in
      let (config_kept, builder_kept) = build_effect-keeps c.global.build g in
      let merged =
        lookup-merged_config manifest.builders c.global.builder c.global.build_config k in
      (
        rw same_config (rw value (rw config_kept (rw merged))),
        rw same_builder (rw keeps (rw builder_kept)),
      )
