-- ===== src/Api/Prepare/Accepted.antt =====
-- pkg/api/composition.go: what PrepareForRun asks for.
use testground.Base.{
  ◌≡◌, ◌≢◌, refl, sym, ap, ◌∙◌, inl, inr, String, true, false, Option, none, some, List, [], ◌∷◌,
  str_eq, arith, Bool, ◌||◌, ◌⊎◌, All, eq_iff, Bool-cases,
}
use testground.Base.Int.{ltb_ℤ}
use testground.Base.Maps.{Map, lookup, insert, lookup-insert}
use testground.Base.Errors.{Fallible, ok, err, >>=-eq-ok}
use testground.Task.Database.{Elem}
use testground.Api.Composition.{ConfigMap, Composition, CompositionError, bad_parameter, to_int}
use testground.Api.Manifest.{
  TestPlanManifest, TestCase, Parameter, DefaultValue, test_case_by_name, find_case, keys,
}
use testground.Api.Build.{str_before}
use testground.Api.Prepare.{is_empty, default_param, default_params}
use testground.Api.Prepare.ForRun.{IsRunnable}
use testground.Api.Prepare.Runners.{all_before, refuses_runner_iff}

-- the text that a parameter has without a value of its own
abbrev pub text_of : DefaultValue → Option String
text_of (DefaultValue.text s) = some s
text_of (DefaultValue.encoded s) = some s
text_of DefaultValue.unencodable = none

abbrev pub AreEncoded : Map Parameter → Type 0
AreEncoded = All (λ (e : String × Parameter). text_of e.1.default ≢ none)

abbrev pub default_of : Option Parameter → Option String
default_of none = none
default_of (some p) = text_of p.default

-- the first of the test cases that has the name
abbrev pub IsFirst : String → List TestCase → TestCase → Type 0
IsFirst name [] t = ⊥
IsFirst name (s ∷ cases) t = ((s ≡ t) × (t.name ≡ name)) ⊎ ((s.name ≢ name) × IsFirst name cases t)

-- what PrepareForRun asks for: the test case is the plan's first one with the name, some runner of the plan does not
-- sort before the composition's, the instances are within the bounds of the test case, and the
-- defaults of its parameters can be encoded
pub record IsAccepted (manifest : TestPlanManifest) (c : Composition) (tcase : TestCase)
    : Type 0 where
  pub is_first : IsFirst c.global.case manifest.test_cases tcase
  pub runner : String
  pub supported : Elem runner (keys manifest.runners)
  pub not_before : str_before runner c.global.runner ≡ false
  pub enough : ltb_ℤ (to_int c.global.total_instances) tcase.instances.minimum ≡ false
  pub not_too_many : ltb_ℤ tcase.instances.maximum (to_int c.global.total_instances) ≡ false
  pub encodes : AreEncoded tcase.parameters

some_eq : {A : Type 0} {a b : A} → ◌≡◌ {A = Option A} (some a) (some b) → a ≡ b
some_eq h = cc h

find_case-IsFirst :
    (name : String) (cases : List TestCase) (t : TestCase)
    → find_case name cases ≡ some t
    → IsFirst name cases t
unfolding find_case
find_case-IsFirst name [] t h = cc h
find_case-IsFirst name (s ∷ cases) t h = elim (Bool-cases (str_eq s.name name)) [
  | inl same ↦
      let e : s ≡ t = some_eq (rw same at h) in
      inl (e, ap (λ (x : TestCase). x.name) (sym e) ∙ (eq_iff s.name name).0 same)
  | inr apart ↦
      inr (
        (λ k. cc (apart, (eq_iff s.name name).1 k)),
        find_case-IsFirst name cases t (rw apart at h),
      )
]

find_case_first :
    (name : String) (cases : List TestCase) (t : TestCase)
    → IsFirst name cases t
    → find_case name cases ≡ some t
unfolding find_case
find_case_first name [] t h = elim h [ ]
find_case_first name (s ∷ cases) t (inl (e, named)) =
    let same : str_eq s.name name ≡ true =
      (eq_iff s.name name).1 (ap (λ (x : TestCase). x.name) e ∙ named) in
    rw same (ap some e)
find_case_first name (s ∷ cases) t (inr (apart, h)) = elim (Bool-cases (str_eq s.name name)) [
  | inl same ↦ absurd (apart ((eq_iff s.name name).0 same))
  | inr off ↦ rw off (find_case_first name cases t h)
]

all_before-Elem :
    (x s : String) (l : List String) → Elem s l → str_before s x ≡ false → all_before x l ≡ false
all_before-Elem x s [] m h = elim m [ ]
all_before-Elem x s (y ∷ l) (inl e) h = rw (← e) (rw h refl)
all_before-Elem x s (y ∷ l) (inr m) h = rw (all_before-Elem x s l m h) (ground arith)

not_all_before :
    (x : String) (l : List String)
    → all_before x l ≡ false
    → (s : String) × Elem s l × (str_before s x ≡ false)
not_all_before x [] h = cc h
not_all_before x (s ∷ l) h = elim (Bool-cases (str_before s x)) [
  | inl before ↦ let (r, m, after) = not_all_before x l (rw before at h) in (r, inr m, after)
  | inr after ↦ (s, inl refl, after)
]

default_param-text :
    (n : String) (p : Parameter) (s : String)
    → default_param n p ≡ ok s
    → text_of p.default ≡ some s
unfolding default_param
default_param-text n p s h = go p.default h
  where
    go :
        (v : DefaultValue)
        → ◌≡◌ {A = Fallible CompositionError String}
            (elim v [
              | DefaultValue.text x ↦ ok x
              | DefaultValue.encoded x ↦ ok x
              | DefaultValue.unencodable ↦ err (bad_parameter n)
            ])
            (ok s)
        → text_of v ≡ some s
    go (DefaultValue.text x) e = cc e
    go (DefaultValue.encoded x) e = cc e
    go DefaultValue.unencodable e = cc e

ok_eq : {a b : Map String} → ◌≡◌ {A = Fallible CompositionError (Map String)} (ok a) (ok b) → a ≡ b
ok_eq h = cc h

pub lookup-default_params :
    (ps : Map Parameter) (defaults : Map String) (k : String)
    → default_params ps ≡ ok defaults
    → (lookup k defaults ≡ default_of (lookup k ps)) × AreEncoded ps
unfolding default_params lookup
lookup-default_params [] defaults k h = (ap (lookup k) (sym (ok_eq h)), tt)
lookup-default_params ((n, v) ∷ ps) defaults k h =
    let (s, first, h₁) = >>=-eq-ok (default_param n v) _ h in
    let (rest, more, h₂) = >>=-eq-ok (default_params ps) _ h₁ in
    let given = default_param-text n v s first in
    let (same, encodes) = lookup-default_params ps rest k more in
    let inserted = ap (lookup k) (sym (ok_eq h₂)) ∙ lookup-insert n k s rest in
    let valued : lookup k defaults ≡ default_of (lookup k ((n, v) ∷ ps)) =
      elim (Bool-cases (str_eq n k)) [
        | inl here ↦ rw here (inserted ∙ rw here (sym given))
        | inr there ↦ rw there (inserted ∙ rw there same)
      ] in
    (valued, ((λ none_given. cc (given, none_given)), encodes))

default_params_total :
    (ps : Map Parameter)
    → AreEncoded ps
    → (defaults : Map String) × (default_params ps ≡ ok defaults)
unfolding default_params default_param
default_params_total [] h = ([], refl)
default_params_total ((n, v) ∷ ps) (first, more) =
    let (rest, ran) = default_params_total ps more in go v.default first rest ran
  where
    go :
        (d : DefaultValue)
        → text_of d ≢ none
        → (rest : Map String) → default_params ps ≡ ok rest
        → (defaults : Map String) × (default_params ((n, record v { default = d }) ∷ ps)
            ≡ ok defaults)
    go (DefaultValue.text x) ok_text rest ran = (insert n x rest, rw ran refl)
    go (DefaultValue.encoded x) ok_text rest ran = (insert n x rest, rw ran refl)
    go DefaultValue.unencodable ok_text rest ran = absurd (ok_text refl)

-- What the code checks is what is asked for.
pub IsRunnable-IsAccepted :
    (manifest : TestPlanManifest) (c : Composition) (r : IsRunnable manifest c)
    → IsAccepted manifest c r.tcase
unfolding test_case_by_name
IsRunnable-IsAccepted manifest c r =
    let (runner, supported, after) =
      not_all_before c.global.runner (keys manifest.runners)
        (sym (refuses_runner_iff (keys manifest.runners) c.global.runner) ∙ r.runner_passes) in
    let t = to_int c.global.total_instances in
    let (low, high) =
      neither (ltb_ℤ t r.tcase.instances.minimum) (ltb_ℤ r.tcase.instances.maximum t) r.in_range in
    record {
      is_first = find_case-IsFirst c.global.case manifest.test_cases r.tcase r.found;
      runner = runner;
      supported = supported;
      not_before = after;
      enough = low;
      not_too_many = high;
      encodes = (lookup-default_params r.tcase.parameters r.defaults "" r.encodes).1;
    }
  where
    neither : (a b : Bool) → (a || b) ≡ false → (a ≡ false) × (b ≡ false)
    neither a b h = ground arith

not_empty : (x : String) (m : Map ConfigMap) → Elem x (keys m) → is_empty m ≡ false
unfolding keys
not_empty x [] h = elim h [ ]
not_empty x (e ∷ m) h = refl

-- and the other way round
pub IsAccepted-IsRunnable :
    (manifest : TestPlanManifest) (c : Composition) (tcase : TestCase)
    → IsAccepted manifest c tcase
    → (r : IsRunnable manifest c) × (r.tcase ≡ tcase)
unfolding test_case_by_name
IsAccepted-IsRunnable manifest c tcase a =
    let (defaults, encodes) = default_params_total tcase.parameters a.encodes in
    (
      record {
        tcase = tcase;
        defaults = defaults;
        found = find_case_first c.global.case manifest.test_cases tcase a.is_first;
        some_runner = not_empty a.runner manifest.runners a.supported;
        runner_passes =
            refuses_runner_iff (keys manifest.runners) c.global.runner
            ∙ all_before-Elem c.global.runner a.runner (keys manifest.runners) a.supported
                a.not_before;
        in_range = rw a.enough (rw a.not_too_many refl);
        encodes = encodes;
      },
      refl,
    )
