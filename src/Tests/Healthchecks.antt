-- ===== src/Tests/Healthchecks.antt =====
-- A helper with three healthchecks, on a world that counts the calls.
use testground.Base.{ℕ, ◌+◌, ◌≡◌, refl, Bool, true, false, [], ◌∷◌, none, some}
use testground.Api.Healthcheck.{fixes_succeeded}
use testground.Healthcheck.{Checked, Fixed, Helper, run_checks}
use testground.Healthcheck.Items.{names}
use testground.Healthcheck.Table.{run_checks-fix}

checks : Bool → ℕ → Checked × ℕ
checks result n = (record { success = result; msg = ""; error = none }, n + 1)

broken : ℕ → Checked × ℕ
broken n = (record { success = true; msg = "broken"; error = some "no daemon" }, n + 1)

fixes : ℕ → Fixed × ℕ
fixes n = (record { msg = "fixed"; error = none }, n + 100)

abbrev helper : Helper ℕ
unfolding checks broken fixes
helper = record {
  items =
      record { name = "network"; checker = checks true; fixer = some fixes }
      ∷ record { name = "redis"; checker = checks false; fixer = some fixes }
      ∷ record { name = "docker"; checker = broken; fixer = none }
      ∷ [];
  report = none;
  error = none;
}

run_checks-fix_example :
    ((run_checks true helper 0).1.1 ≡ 103)
    × (names (run_checks true helper 0).0.0.checks ≡ "network" ∷ "redis" ∷ "docker" ∷ [])
    × (names (run_checks true helper 0).0.0.fixes ≡ "network" ∷ "redis" ∷ [])
    × (fixes_succeeded (run_checks true helper 0).0.0 ≡ true)
unfolding helper
run_checks-fix_example = run_checks-fix helper 0 refl
