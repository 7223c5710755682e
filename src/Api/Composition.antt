-- ===== src/Api/Composition.antt =====
-- pkg/api/composition.go: the data of a composition. `Groups` is a slice of pointers, so a
-- composition holds addresses into a heap of groups, which the copies of a composition share.
use testground.Base.{ℕ, ◌-◌, String, Bool, Option, List, ltb, if◌then◌else◌}
use testground.Base.Int.{ℤ, pos, negsuc}
use testground.Base.Maps.{Map}
use testground.Task.Payload.{Json}

-- `uint` and `int` have 64 bits
abbrev pub u64_mod : ℕ
u64_mod = 18446744073709551616

-- `int(n)` of a uint
abbrev pub to_int : ℕ → ℤ
to_int n = if ltb n 9223372036854775808 then pos n else negsuc (u64_mod - n - 1)

-- What the code uses of `float64`, for the percentages of Instances.
pub record Float64 : Type 1 where
  pub F : Type 0
  pub is_zero : F → Bool  -- `p == 0`
  pub share : F → ℕ → ℕ  -- `uint(math.Round(p * float64(total)))`
  pub sum_positive : ℕ → F → Bool  -- `float64(count) + p > 0`

abbrev pub ConfigMap : Type 0
ConfigMap = Map Json

pub record Metadata : Type 0 where
  pub name : String
  pub author : String

pub record Resources : Type 0 where
  pub memory : String
  pub cpu : String

pub record Instances (F : Type 0) : Type 0 where
  pub count : ℕ
  pub percentage : F

pub record Dependency : Type 0 where
  pub module_path : String  -- Module
  pub target : String
  pub version : String

pub record Build : Type 0 where
  pub selectors : List String
  pub dependencies : List Dependency

-- a nil map is `none`
pub record Run : Type 0 where
  pub artifact : String
  pub test_params : Option (Map String)
  pub profiles : Option (Map String)

pub record Group (F : Type 0) : Type 0 where
  pub id : String
  pub resources : Resources
  pub instances : Instances F
  pub builder : String
  pub build_config : Option ConfigMap
  pub build : Build
  pub run : Run
  pub calculated_instance_cnt : ℕ

pub record Global : Type 0 where
  pub plan : String
  pub case : String
  pub total_instances : ℕ
  pub builder : String
  pub build_config : Option ConfigMap
  pub build : Option Build
  pub runner : String
  pub run_config : Option ConfigMap
  pub run : Option Run
  pub disable_metrics : Bool

pub record Composition : Type 0 where
  pub metadata : Metadata
  pub global : Global
  pub groups : List ℕ  -- the addresses of the groups

-- the errors that the functions on compositions return
pub data CompositionError : Type 0 where
  invalid_structure : CompositionError  -- an error of the validator library
  duplicate_group : String → CompositionError
  missing_builder : String → CompositionError
  instances_mismatch : ℕ → ℕ → CompositionError
  no_builders : CompositionError
  unsupported_builder : String → CompositionError
  no_test_case : String → CompositionError
  no_runners : CompositionError
  unsupported_runner : String → CompositionError
  instances_out_of_range : ℤ → CompositionError
  bad_parameter : String → CompositionError
  invalid_index : ℤ → CompositionError
