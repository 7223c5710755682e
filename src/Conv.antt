-- ===== src/Conv.antt =====
-- pkg/conv/conversions.go: options in the forms of the command line and of the environment. The
-- parsers of strconv and the conversions to the types of Kubernetes and Docker are not modelled.
pub mod RoundTrip
use testground.Base.{
  String, Bool, true, false, Option, none, some, List, [], ◌∷◌, str_eq, if◌then◌else◌,
}
use testground.Base.Maps.{Map, insert}
use testground.Base.Errors.{Fallible, ok, err, panic, ◌>>=◌}
use Prim.Native.Char.{Char}

pub data ConvError : Type 0 where
  invalid_key_value : String → ConvError
  not_strings : ConvError

-- `s + t` of Go, by the characters of `s`
unfoldable pub concat : String → String → String
concat String.[] t = t
concat (String.◌∷◌ c s) t = String.◌∷◌ c (concat s t)

abbrev pub is_sign : Char → Bool
is_sign c = str_eq (String.◌∷◌ c String.[]) "="

abbrev pub push_char : Char → List String → List String
push_char c [] = String.◌∷◌ c String.[] ∷ []
push_char c (s ∷ ss) = String.◌∷◌ c s ∷ ss

-- `strings.Split(d, "=")`
unfoldable pub split : String → List String
split String.[] = String.[] ∷ []
split (String.◌∷◌ c s) =
    let parts = split s in if is_sign c then String.[] ∷ parts else push_char c parts

-- `strings.Join(parts, "=")`
unfoldable pub join : List String → String
unfolding concat
join [] = ""
join (s ∷ []) = s
join (s ∷ t ∷ ss) = concat s (concat "=" (join (t ∷ ss)))

abbrev pub key_value : String → List String → Fallible ConvError (String × String)
key_value d [] = err (invalid_key_value d)
key_value d (k ∷ []) = err (invalid_key_value d)
key_value d (k ∷ v ∷ vs) = ok (k, join (v ∷ vs))

-- the loop of ParseKeyValues
unfoldable pub parse_into : Map String → List String → Fallible ConvError (Map String)
unfolding split join
parse_into res [] = ok res
parse_into res (d ∷ ds) = key_value d (split d) >>= λ (k, v). parse_into (insert k v res) ds

-- ParseKeyValues
unfoldable pub parse_key_values : List String → Fallible ConvError (Map String)
unfolding parse_into
parse_key_values ds = parse_into [] ds

-- ToOptionsSlice
unfoldable pub to_options_slice : Map String → List String
unfolding concat
to_options_slice [] = []
to_options_slice ((k, v) ∷ m) = concat k (concat "=" v) ∷ to_options_slice m

-- a value of the `interface{}` of a configuration
pub data Value : Type 0 where
  int : String → Value  -- an int, by its digits
  float : String → Value
  bool : Bool → Value
  text : String → Value

-- the parsers of strconv; `none` is an error
pub record StrConv : Type 0 where
  pub atoi : String → Option String
  pub parse_float : String → Option String
  pub parse_bool : String → Option Bool
  pub unquote : String → Option String

module _ (strconv : StrConv) where
  open strconv use {atoi, parse_float, parse_bool, unquote}

  abbrev try_unquote : String → Option String → Value
  try_unquote v (some t) = text t
  try_unquote v none = text v

  abbrev try_bool : String → Option Bool → Value
  try_bool v (some b) = bool b
  try_bool v none = try_unquote v (unquote v)

  abbrev try_float : String → Option String → Value
  try_float v (some t) = float t
  try_float v none = try_bool v (parse_bool v)

  abbrev try_int : String → Option String → Value
  try_int v (some t) = int t
  try_int v none = try_float v (parse_float v)

  -- InferTypedMap
  unfoldable pub infer_typed_map : Map String → Map Value
  infer_typed_map [] = []
  infer_typed_map ((k, v) ∷ m) = insert k (try_int v (atoi v)) (infer_typed_map m)

abbrev as_string : Value → Fallible ConvError String
as_string (text s) = ok s
as_string (int s) = err not_strings
as_string (float s) = err not_strings
as_string (bool b) = err not_strings

-- the loop of CastAsStringMap
cast_into : Map String → Map Value → Fallible ConvError (Map String)
cast_into out [] = ok out
cast_into out ((k, v) ∷ input) = as_string v >>= λ value. cast_into (insert k value out) input

-- CastAsStringMap
unfoldable pub cast_as_string_map : Map Value → Fallible ConvError (Map String)
unfolding cast_into
cast_as_string_map input = cast_into [] input
