-- ===== src/Tests/Compositions.antt =====
-- Compositions at concrete values.

use testground.Base.{
  ℕ, ◌+◌, ◌*◌, ◌/◌, ◌≡◌, ◌↔◌, ◌⊎◌, inl, inr, refl, String, Bool, true, false, List, [], ◌∷◌, arith,
  none, some, get_elem?, ltb, ◌==◌, false, str_eq, if◌then◌else◌,
}
use testground.Base.Int.{pos}
use testground.Base.Maps.{insert}
use testground.Base.Errors.{Fallible, ok, err}
use testground.Task.Bytes.{before}
use testground.Task.Database.{Elem}
use testground.Task.Payload.{scalar}
use testground.Api.Composition.{
  Float64, Group, Composition, Build, CompositionError, invalid_structure, unsupported_builder,
}
use testground.Api.Manifest.{
  TestPlanManifest, TestCase, DefaultValue, has_builder, keys, test_case_by_name,
}
use testground.Api.Groups.{AllInside, AllDistinct, Written, read_all, for_each}
use testground.Api.Build.{sort_by, insert_sorted}
use testground.Api.Prepare.{
  search_strings, default_params, prepare_for_build, prepare_for_run, refuses_runner,
}
use testground.Api.Prepare.Filled.{IsReturned, AreFilled, prepare_for_build_correct}
use testground.Api.Prepare.ForRun.{with_run_config}
use testground.Api.Prepare.Accepted.{IsAccepted}
use testground.Api.Prepare.FilledRun.{
  IsRunReturned, AreReady, prepare_for_run_returns, prepare_for_run_correct,
}
use testground.Api.Validate.{validate_for_run, with_count}
use testground.Api.Validate.Unique.{HasUniqueIds, HasBuilders}
use testground.Api.Validate.Runs.{counted, validate_for_run_correct}

-- percentages as whole numbers
abbrev pub percent : Float64
percent = record {
  F = ℕ;
  is_zero = λ p. p == 0;
  share = λ p total. (p * total + 50) / 100;
  sum_positive = λ n p. ltb 0 (n + p);
}

abbrev pub group : String → String → ℕ → Group ℕ
group id builder count = record {
  id = id;
  resources = record { memory = ""; cpu = "" };
  instances = record { count = count; percentage = 0 };
  builder = builder;
  build_config = none;
  build = record { selectors = []; dependencies = [] };
  run = record { artifact = ""; test_params = none; profiles = none };
  calculated_instance_cnt = 0;
}

abbrev pub heap : List (Group ℕ)
heap = group "servers" "" 2 ∷ group "clients" "exec:go" 3 ∷ []

abbrev pub composition : Composition
composition = record {
  metadata = record { name = "demo"; author = "" };
  global = record {
    plan = "./plans/network";
    case = "ping-pong";
    total_instances = 5;
    builder = "docker:go";
    build_config = none;
    build = none;
    runner = "local:docker";
    run_config = none;
    run = none;
    disable_metrics = false;
  };
  groups = 0 ∷ 1 ∷ [];
}

abbrev ping_pong : TestCase
ping_pong = record {
  name = "ping-pong";
  instances = record { minimum = pos 2; maximum = pos 100 };
  parameters =
      (
        "size",
        record { type = "int"; description = ""; unit = ""; default = DefaultValue.encoded "64" },
      )
      ∷ [];
}

abbrev pub manifest : TestPlanManifest
manifest = record {
  name = "network";
  builders = ("docker:go", ("enabled", scalar "true") ∷ []) ∷ ("exec:go", []) ∷ [];
  runners = ("local:docker", []) ∷ ("local:exec", []) ∷ [];
  test_cases = ping_pong ∷ [];
  extra_sources = [];
}

groups-AllInside : AllInside composition.groups heap
groups-AllInside = (omega arith, (omega arith, tt))

groups-AllDistinct : AllDistinct composition.groups
groups-AllDistinct = (not_in, ((λ m. elim m [ ]), tt))
  where
    not_in : ¬ Elem {A = ℕ} 0 (1 ∷ [])
    not_in (inl e) = absurd (omega (arith, e))
    not_in (inr m) = elim m [ ]

-- with defaults for the selectors, the dependencies and the configuration of the groups
abbrev with_defaults : Composition
with_defaults = record composition {
  global = record composition.global {
    build = some (record {
      selectors = "tls" ∷ [];
      dependencies = record { module_path = "libp2p"; version = "v2"; target = "" } ∷ [];
    });
    build_config = some (("go_version", scalar "1.16") ∷ []);
  };
}

prepare_for_build_correct_example :
    ((c' : Composition) × (heap' : List (Group ℕ)) × (◌≡◌
        {A = Fallible CompositionError Composition × List (Group ℕ)}
        (prepare_for_build manifest with_defaults heap)
        (ok c', heap'))
      × IsReturned manifest with_defaults c'
      × AreFilled manifest with_defaults heap heap')
    ⊎ (((prepare_for_build manifest with_defaults heap).0
          ≡ err (unsupported_builder with_defaults.global.builder))
        × (p : ℕ) × (g : Group ℕ) × Elem p with_defaults.groups
        × (get_elem? heap p ≡ some g)
        × (has_builder manifest
              (if str_eq g.builder "" then with_defaults.global.builder else g.builder)
            ≡ false))
prepare_for_build_correct_example =
    prepare_for_build_correct manifest with_defaults heap refl groups-AllInside groups-AllDistinct

-- with defaults for the runs of the groups
abbrev with_run : Composition
with_run = record composition {
  global = record composition.global {
    run = some (record {
      artifact = "image";
      test_params = some (("latency", "5") ∷ []);
      profiles = none;
    });
    run_config = some (("keep", scalar "true") ∷ []);
  };
}

accepted : IsAccepted manifest with_run ping_pong
unfolding keys before
accepted = record {
  is_first = inl (refl, refl);
  runner = "local:docker";
  supported = inl refl;
  not_before = refl;
  enough = refl;
  not_too_many = refl;
  encodes = ((λ e. cc e), tt);
}

prepare_for_run_returns_example :
    (c' : Composition) × (heap' : List (Group ℕ)) × (◌≡◌
      {A = Fallible CompositionError Composition × List (Group ℕ)}
      (prepare_for_run manifest with_run heap)
      (ok c', heap'))
    × IsRunReturned manifest with_run c'
    × AreReady manifest with_run ping_pong heap heap'
prepare_for_run_returns_example =
    prepare_for_run_returns manifest with_run heap ping_pong groups-AllInside groups-AllDistinct
      accepted

abbrev returned : List (Group ℕ)
returned = (prepare_for_run manifest with_run heap).1

returns :
    ◌≡◌ {A = Fallible CompositionError Composition × List (Group ℕ)}
      (prepare_for_run manifest with_run heap)
      (ok (with_run_config manifest with_run), returned)
unfolding prepare_for_run test_case_by_name keys refuses_runner search_strings sort_by insert_sorted
    before default_params insert for_each
returns = refl

prepare_for_run_correct_example :
    (tcase : TestCase) × IsAccepted manifest with_run tcase
    × IsRunReturned manifest with_run (with_run_config manifest with_run)
    × AreReady manifest with_run tcase heap returned
prepare_for_run_correct_example =
    prepare_for_run_correct manifest with_run heap returned (with_run_config manifest with_run)
      groups-AllInside groups-AllDistinct returns

-- a runner that the plan does not support, between two that it does
unsupported_passes : refuses_runner ("local:docker" ∷ "local:exec" ∷ []) "local:dream" ≡ false
unfolding refuses_runner search_strings sort_by insert_sorted before
unsupported_passes = refl

reads : read_all {E = CompositionError} composition.groups heap ≡ ok heap
unfolding read_all
reads = refl

accept_all : Composition → List (Group ℕ) → Bool
accept_all c h = true

validate_for_run_correct_example :
    (accept_all composition heap ≡ false
      → validate_for_run percent accept_all composition heap ≡ (err invalid_structure, heap))
    × (accept_all composition heap ≡ true
        → (heap' : List (Group ℕ)) × ((validate_for_run percent accept_all composition heap).1
            ≡ heap')
          × Written (with_count percent 5) composition.groups heap heap'
          × (((validate_for_run percent accept_all composition heap).0 ≡ ok tt) ↔ (
              (5 ≡ counted percent accept_all composition heap)
              × HasUniqueIds heap
              × HasBuilders "docker:go" heap)))
validate_for_run_correct_example =
    validate_for_run_correct percent accept_all composition heap heap groups-AllDistinct reads

abbrev tagged : Build
tagged = record {
  selectors = "a" ∷ "b" ∷ [];
  dependencies = record { module_path = "m"; target = "t"; version = "v1" } ∷ [];
}
