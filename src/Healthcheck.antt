-- ===== src/Healthcheck.antt =====
-- pkg/healthcheck/helper.go: the helper that runs healthchecks. Checkers and fixers are functions
-- of the code outside; they read and write a world of the type `W`.
pub mod Items
pub mod Table
use Prim.Native.String.{◌++◌ as concat}
use testground.Base.{String, Bool, true, false, Option, none, some, List, [], ◌∷◌, ◌++◌}
use testground.Api.Healthcheck.{
  HealthcheckStatus, succeeded, failed, aborted, omitted, unnecessary, HealthcheckItem,
  HealthcheckReport,
}

-- ok, msg, err
pub record Checked : Type 0 where
  pub success : Bool
  pub msg : String
  pub error : Option String

-- msg, err
pub record Fixed : Type 0 where
  pub msg : String
  pub error : Option String

-- item
pub record CheckItem (W : Type 0) : Type 0 where
  pub name : String
  pub checker : W → Checked × W
  pub fixer : Option (W → Fixed × W)

-- the lock is held during each method
pub record Helper (W : Type 0) : Type 0 where
  pub items : List (CheckItem W)
  pub report : Option HealthcheckReport
  pub error : Option String

abbrev pub add_check : HealthcheckItem → HealthcheckReport → HealthcheckReport
add_check i r = record r { checks = r.checks ++ i ∷ [] }

abbrev pub add_fix : HealthcheckItem → HealthcheckReport → HealthcheckReport
add_fix i r = record r { fixes = r.fixes ++ i ∷ [] }

abbrev pub fix_status : Option String → HealthcheckStatus
fix_status none = succeeded
fix_status (some e) = failed

abbrev pub empty_report : HealthcheckReport
empty_report = record { checks = []; fixes = [] }

module _ {W : Type 0} where
  -- Enlist
  unfoldable pub enlist : String → (W → Checked × W) → Option (W → Fixed × W) → Helper W → Helper W
  enlist name c f h = record h {
    items = h.items ++ record { name = name; checker = c; fixer = f } ∷ [];
  }

  -- `if fix && li.Fixer != nil { append }`
  abbrev pub note_fix :
      Bool
      → Option (W → Fixed × W)
      → String
      → HealthcheckStatus
      → HealthcheckReport
      → HealthcheckReport
  note_fix true (some f) name status r =
      add_fix (record { name = name; status = status; message = "" }) r
  note_fix true none name status r = r
  note_fix false fixer name status r = r

  -- the fix action of a check that failed
  abbrev pub attempt :
      Bool → Option (W → Fixed × W) → String → HealthcheckReport → W → HealthcheckReport × W
  attempt fix none name r w = (r, w)
  attempt false (some f) name r w =
      (add_fix (record { name = name; status = omitted; message = "" }) r, w)
  attempt true (some f) name r w =
      let (x, w') = f w in
      (add_fix (record { name = name; status = fix_status x.error; message = x.msg }) r, w')

  -- the `switch` on what the checker returned: ok, msg and err
  abbrev pub record_check :
      Bool
      → Option (W → Fixed × W)
      → String
      → Bool
      → String
      → Option String
      → HealthcheckReport
      → W
      → HealthcheckReport × W
  record_check fix fixer name success msg (some e) r w = (
    note_fix fix fixer name omitted (
        add_check
          (record { name = name; status = aborted; message = concat msg (concat "; error: " e) })
          r),
    w,
  )
  record_check fix fixer name true msg none r w = (
    note_fix fix fixer name unnecessary
        (add_check (record { name = name; status = succeeded; message = msg }) r),
    w,
  )
  record_check fix fixer name false msg none r w =
      attempt fix fixer name (add_check (record { name = name; status = failed; message = msg }) r)
        w

  -- the loop of RunChecks
  unfoldable pub run_items :
      Bool → List (CheckItem W) → HealthcheckReport → W → HealthcheckReport × W
  run_items fix [] r w = (r, w)
  run_items fix (li ∷ lis) r w =
      let (c, w₁) = li.checker w in
      let (r', w₂) = record_check fix li.fixer li.name c.success c.msg c.error r w₁ in
      run_items fix lis r' w₂

  -- RunChecks: the report and the error, and the state after it
  unfoldable pub run_checks :
      Bool → Helper W → W → (HealthcheckReport × Option String) × (Helper W × W)
  unfolding run_items
  run_checks fix h w = elim h.report [
    | some r ↦ ((r, h.error), (h, w))
    | none ↦
        let (r, w') = run_items fix h.items empty_report w in
        ((r, h.error), (record h { report = some r }, w'))
  ]
