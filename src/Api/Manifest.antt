-- ===== src/Api/Manifest.antt =====
-- pkg/api/manifest.go: what a test plan says of itself.
use testground.Base.{
  String, Bool, true, false, Option, none, some, List, [], ◌∷◌, str_eq, if◌then◌else◌,
}
use testground.Base.Int.{ℤ}
use testground.Base.Maps.{Map}
use testground.Api.Composition.{ConfigMap}

-- the `interface{}` of a parameter's default: a string, or another value by its JSON text, if it
-- can be encoded
pub data DefaultValue : Type 0 where
  text : String → DefaultValue
  encoded : String → DefaultValue
  unencodable : DefaultValue

pub record Parameter : Type 0 where
  pub type : String
  pub description : String
  pub unit : String
  pub default : DefaultValue

pub record InstanceConstraints : Type 0 where
  pub minimum : ℤ
  pub maximum : ℤ

pub record TestCase : Type 0 where
  pub name : String
  pub instances : InstanceConstraints
  pub parameters : Map Parameter

pub record TestPlanManifest : Type 0 where
  pub name : String
  pub builders : Map ConfigMap
  pub runners : Map ConfigMap
  pub test_cases : List TestCase
  pub extra_sources : Map (List String)

unfoldable pub find_case : String → List TestCase → Option TestCase
find_case name [] = none
find_case name (tc ∷ rest) = if str_eq tc.name name then some tc else find_case name rest

-- TestCaseByName, without the index, which no caller reads
unfoldable pub test_case_by_name : TestPlanManifest → String → Option TestCase
unfolding find_case
test_case_by_name tp name = find_case name tp.test_cases

-- the keys of a map
unfoldable pub keys : {V : Type 0} → Map V → List String
keys [] = []
keys ((k, v) ∷ m) = k ∷ keys m

unfoldable pub contains : String → List String → Bool
contains name [] = false
contains name (k ∷ ks) = if str_eq k name then true else contains name ks

-- HasBuilder
unfoldable pub has_builder : TestPlanManifest → String → Bool
unfolding keys contains
has_builder tp name = contains name (keys tp.builders)

-- SupportedBuilders
unfoldable pub supported_builders : TestPlanManifest → List String
unfolding keys
supported_builders tp = keys tp.builders
