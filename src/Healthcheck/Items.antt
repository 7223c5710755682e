-- ===== src/Healthcheck/Items.antt =====
-- pkg/healthcheck/helper.go: what the loop of RunChecks adds to the report, item by item.
use mathlib.Core.List.{append-nil, append_assoc}
use testground.Base.{
  ◌≡◌, refl, sym, ap, ◌∙◌, String, Bool, true, false, ◌&&◌, Option, none, some, List, [], ◌∷◌, ◌++◌,
  map, arith,
}
use testground.Api.Healthcheck.{HealthcheckItem, HealthcheckReport, is_fine, all_fine}
use testground.Healthcheck.{Fixed, CheckItem, record_check, run_items, fix_status}

abbrev pub names : List HealthcheckItem → List String
names is = map (λ (i : HealthcheckItem). i.name) is

and_assoc : (a b c : Bool) → ((a && b) && c) ≡ (a && (b && c))
and_assoc true b c = refl
and_assoc false b c = refl

and_true : (a : Bool) → (a && true) ≡ a
and_true true = refl
and_true false = refl

all_fine-append :
    (is : List HealthcheckItem) (i : HealthcheckItem)
    → all_fine (is ++ i ∷ []) ≡ (all_fine is && is_fine i.status)
all_fine-append [] i = ground arith
all_fine-append (j ∷ is) i =
    rw (all_fine-append is i) (sym (and_assoc (is_fine j.status) (all_fine is) (is_fine i.status)))

map-append :
    {A B : Type 0} (f : A → B) (xs : List A) (x : A) → map f (xs ++ x ∷ []) ≡ map f xs ++ f x ∷ []
map-append f [] x = refl
map-append f (y ∷ ys) x = rw (map-append f ys x) refl

-- whether a checker returned success and no error
abbrev pub passes : Bool → Option String → Bool
passes success none = success
passes success (some e) = false

module _ {W : Type 0} where
  -- the checkers alone, one after the other: whether all pass, and the world after them
  abbrev pub check_all : List (CheckItem W) → W → Bool × W
  check_all [] w = (true, w)
  check_all (li ∷ lis) w =
      let (c, w₁) = li.checker w in
      let (rest, w₂) = check_all lis w₁ in (passes c.success c.error && rest, w₂)

  -- the names of the items, and of those with a fixer
  abbrev pub listed : List (CheckItem W) → List String
  listed lis = map (λ (li : CheckItem W). li.name) lis

  abbrev if_fixer : Option (W → Fixed × W) → String → List String → List String
  if_fixer none name rest = rest
  if_fixer (some f) name rest = name ∷ rest

  abbrev pub fixable : List (CheckItem W) → List String
  fixable [] = []
  fixable (li ∷ lis) = if_fixer li.fixer li.name (fixable lis)

  record_check-adds :
      (fix : Bool) (fixer : Option (W → Fixed × W)) (name : String) (success : Bool) (msg : String)
      (error : Option String) (r : HealthcheckReport) (w : W)
      → names (record_check fix fixer name success msg error r w).0.checks
        ≡ names r.checks ++ name ∷ []
  record_check-adds true none name success msg (some e) r w = map-append _ r.checks _
  record_check-adds true (some f) name success msg (some e) r w = map-append _ r.checks _
  record_check-adds false fixer name success msg (some e) r w = map-append _ r.checks _
  record_check-adds true none name true msg none r w = map-append _ r.checks _
  record_check-adds true (some f) name true msg none r w = map-append _ r.checks _
  record_check-adds false fixer name true msg none r w = map-append _ r.checks _
  record_check-adds fix none name false msg none r w = map-append _ r.checks _
  record_check-adds false (some f) name false msg none r w = map-append _ r.checks _
  record_check-adds true (some f) name false msg none r w = map-append _ r.checks _

  pub run_items-names :
      (fix : Bool) (lis : List (CheckItem W)) (r : HealthcheckReport) (w : W)
      → names (run_items fix lis r w).0.checks ≡ names r.checks ++ listed lis
  unfolding run_items
  run_items-names fix [] r w = sym (append-nil (names r.checks))
  run_items-names fix (li ∷ lis) r w =
      let (c, w₁) = li.checker w in
      let (r', w₂) = record_check fix li.fixer li.name c.success c.msg c.error r w₁ in
      run_items-names fix lis r' w₂
      ∙ ap (λ l. l ++ listed lis)
          (record_check-adds fix li.fixer li.name c.success c.msg c.error r w₁)
      ∙ append_assoc (names r.checks) (li.name ∷ []) (listed lis)

  -- an item of a run without fixes
  record_check-dry :
      (fixer : Option (W → Fixed × W)) (name : String) (success : Bool) (msg : String)
      (error : Option String) (r : HealthcheckReport) (w : W)
      → ((record_check false fixer name success msg error r w).1 ≡ w)
        × (all_fine (record_check false fixer name success msg error r w).0.checks
            ≡ (all_fine r.checks && passes success error))
        × (all_fine (record_check false fixer name success msg error r w).0.fixes
            ≡ all_fine r.fixes)
  record_check-dry fixer name success msg (some e) r w = (refl, all_fine-append r.checks _, refl)
  record_check-dry fixer name true msg none r w = (refl, all_fine-append r.checks _, refl)
  record_check-dry none name false msg none r w = (refl, all_fine-append r.checks _, refl)
  record_check-dry (some f) name false msg none r w =
      (refl, all_fine-append r.checks _, all_fine-append r.fixes _ ∙ and_true (all_fine r.fixes))

  pub run_items-dry :
      (lis : List (CheckItem W)) (r : HealthcheckReport) (w : W)
      → ((run_items false lis r w).1 ≡ (check_all lis w).1)
        × (all_fine (run_items false lis r w).0.checks ≡ (all_fine r.checks && (check_all lis w).0))
        × (all_fine (run_items false lis r w).0.fixes ≡ all_fine r.fixes)
  unfolding run_items
  run_items-dry [] r w = (refl, sym (and_true (all_fine r.checks)), refl)
  run_items-dry (li ∷ lis) r w =
      let (c, w₁) = li.checker w in
      let (same, checks, fixes) = record_check-dry li.fixer li.name c.success c.msg c.error r w₁ in
      let (same', checks', fixes') =
        run_items-dry lis (record_check false li.fixer li.name c.success c.msg c.error r w₁).0
          (record_check false li.fixer li.name c.success c.msg c.error r w₁).1 in
      (
        same' ∙ ap (λ v. (check_all lis v).1) same,
        checks'
            ∙ ap
                (λ v.
                  all_fine
                    (record_check false li.fixer li.name c.success c.msg c.error r w₁).0.checks
                  && (check_all lis v).0)
                same
            ∙ ap (λ b. b && (check_all lis w₁).0) checks
            ∙ and_assoc (all_fine r.checks) (passes c.success c.error) (check_all lis w₁).0,
        fixes' ∙ fixes,
      )

  -- what a run with fixes does with one item: whether a fix failed, and the world
  abbrev pub mend : Option (W → Fixed × W) → Bool → Option String → W → Bool × W
  mend fixer success (some e) w = (true, w)
  mend fixer true none w = (true, w)
  mend none false none w = (true, w)
  mend (some f) false none w = let (x, w') = f w in (is_fine (fix_status x.error), w')

  -- the checkers, each followed by its fixer if it failed without an error: whether no fix
  -- failed, and the world after them
  abbrev pub mend_all : List (CheckItem W) → W → Bool × W
  mend_all [] w = (true, w)
  mend_all (li ∷ lis) w =
      let (c, w₁) = li.checker w in
      let (mended, w₂) = mend li.fixer c.success c.error w₁ in
      let (rest, w₃) = mend_all lis w₂ in (mended && rest, w₃)

  record_check-fix :
      (fixer : Option (W → Fixed × W)) (name : String) (success : Bool) (msg : String)
      (error : Option String) (r : HealthcheckReport) (w : W)
      → ((record_check true fixer name success msg error r w).1 ≡ (mend fixer success error w).1)
        × (all_fine (record_check true fixer name success msg error r w).0.fixes
            ≡ (all_fine r.fixes && (mend fixer success error w).0))
        × (names (record_check true fixer name success msg error r w).0.fixes
            ≡ names r.fixes ++ if_fixer fixer name [])
  record_check-fix none name success msg (some e) r w =
      (refl, sym (and_true (all_fine r.fixes)), sym (append-nil (names r.fixes)))
  record_check-fix (some f) name success msg (some e) r w =
      (refl, all_fine-append r.fixes _, map-append _ r.fixes _)
  record_check-fix none name true msg none r w =
      (refl, sym (and_true (all_fine r.fixes)), sym (append-nil (names r.fixes)))
  record_check-fix (some f) name true msg none r w =
      (refl, all_fine-append r.fixes _, map-append _ r.fixes _)
  record_check-fix none name false msg none r w =
      (refl, sym (and_true (all_fine r.fixes)), sym (append-nil (names r.fixes)))
  record_check-fix (some f) name false msg none r w =
      (refl, all_fine-append r.fixes _, map-append _ r.fixes _)

  if_fixer-append :
      (fixer : Option (W → Fixed × W)) (name : String) (rest : List String)
      → if_fixer fixer name [] ++ rest ≡ if_fixer fixer name rest
  if_fixer-append none name rest = refl
  if_fixer-append (some f) name rest = refl

  pub run_items-fix :
      (lis : List (CheckItem W)) (r : HealthcheckReport) (w : W)
      → ((run_items true lis r w).1 ≡ (mend_all lis w).1)
        × (all_fine (run_items true lis r w).0.fixes ≡ (all_fine r.fixes && (mend_all lis w).0))
        × (names (run_items true lis r w).0.fixes ≡ names r.fixes ++ fixable lis)
  unfolding run_items
  run_items-fix [] r w = (refl, sym (and_true (all_fine r.fixes)), sym (append-nil (names r.fixes)))
  run_items-fix (li ∷ lis) r w =
      let (c, w₁) = li.checker w in
      let (same, fixes, listed_fixes) =
        record_check-fix li.fixer li.name c.success c.msg c.error r w₁ in
      let m = mend li.fixer c.success c.error w₁ in
      let r' = (record_check true li.fixer li.name c.success c.msg c.error r w₁).0 in
      let (same', fixes', listed_fixes') =
        run_items-fix lis r' (record_check true li.fixer li.name c.success c.msg c.error r w₁).1 in
      (
        same' ∙ ap (λ v. (mend_all lis v).1) same,
        fixes'
            ∙ ap (λ v. all_fine r'.fixes && (mend_all lis v).0) same
            ∙ ap (λ b. b && (mend_all lis m.1).0) fixes
            ∙ and_assoc (all_fine r.fixes) m.0 (mend_all lis m.1).0,
        listed_fixes'
            ∙ ap (λ l. l ++ fixable lis) listed_fixes
            ∙ append_assoc (names r.fixes) (if_fixer li.fixer li.name []) (fixable lis)
            ∙ ap (λ l. names r.fixes ++ l) (if_fixer-append li.fixer li.name (fixable lis)),
      )
