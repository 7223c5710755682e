-- ===== src/Api/Healthcheck.antt =====
-- pkg/api/healthcheck.go: the report of healthchecks and fixes.
use Prim.Native.String.{◌++◌ as concat}
use testground.Base.{String, Bool, true, false, ◌&&◌, List, [], ◌∷◌}

-- a string type with these values
pub data HealthcheckStatus : Type 0 where
  succeeded : HealthcheckStatus  -- HealthcheckStatusOK
  failed : HealthcheckStatus
  aborted : HealthcheckStatus
  omitted : HealthcheckStatus
  unnecessary : HealthcheckStatus
  other : String → HealthcheckStatus

pub record HealthcheckItem : Type 0 where
  pub name : String
  pub status : HealthcheckStatus
  pub message : String

pub record HealthcheckReport : Type 0 where
  pub checks : List HealthcheckItem
  pub fixes : List HealthcheckItem

-- the `switch` of ChecksSucceeded and FixesSucceeded
abbrev pub is_fine : HealthcheckStatus → Bool
is_fine HealthcheckStatus.succeeded = true
is_fine HealthcheckStatus.omitted = true
is_fine HealthcheckStatus.unnecessary = true
is_fine HealthcheckStatus.failed = false
is_fine HealthcheckStatus.aborted = false
is_fine (HealthcheckStatus.other s) = false

abbrev pub all_fine : List HealthcheckItem → Bool
all_fine [] = true
all_fine (i ∷ is) = is_fine i.status && all_fine is

-- ChecksSucceeded
abbrev pub checks_succeeded : HealthcheckReport → Bool
checks_succeeded hr = all_fine hr.checks

-- FixesSucceeded
abbrev pub fixes_succeeded : HealthcheckReport → Bool
fixes_succeeded hr = all_fine hr.fixes

abbrev text_of : HealthcheckStatus → String
text_of HealthcheckStatus.succeeded = "ok"
text_of HealthcheckStatus.failed = "failed"
text_of HealthcheckStatus.aborted = "aborted"
text_of HealthcheckStatus.omitted = "omitted"
text_of HealthcheckStatus.unnecessary = "unnecessary"
text_of (HealthcheckStatus.other s) = s

print_items : List HealthcheckItem → String
print_items [] = ""
print_items (i ∷ is) = concat "- " (
    concat i.name (
      concat ": " (
        concat (text_of i.status) (concat "; " (concat i.message (concat "\n" (print_items is)))))))

print_part : String → String → List HealthcheckItem → String
unfolding print_items
print_part title otherwise [] = concat otherwise "\n"
print_part title otherwise (i ∷ is) = concat title (concat "\n" (print_items (i ∷ is)))

-- String
unfoldable pub to_string : HealthcheckReport → String
unfolding print_part
to_string hr =
    concat (print_part "Checks:" "No checks made." hr.checks)
      (print_part "Fixes:" "No fixes applied." hr.fixes)
