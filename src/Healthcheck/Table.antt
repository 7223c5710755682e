-- ===== src/Healthcheck/Table.antt =====
-- pkg/healthcheck/helper.go: what RunChecks reports, and which checkers and fixers it runs.
use testground.Base.{◌≡◌, refl, Bool, true, false, none, some}
use testground.Api.Healthcheck.{checks_succeeded, fixes_succeeded}
use testground.Healthcheck.{Helper, run_items, run_checks, empty_report}
use testground.Healthcheck.Items.{
  names, listed, fixable, check_all, mend_all, run_items-names, run_items-dry, run_items-fix,
}

module _ {W : Type 0} where
  module _ (h : Helper W) (w : W) (fresh : h.report ≡ none) where
    run_checks-eq :
        (fix : Bool)
        → run_checks fix h w ≡ (
          ((run_items fix h.items empty_report w).0, h.error),
          (
            record h { report = some (run_items fix h.items empty_report w).0 },
            (run_items fix h.items empty_report w).1,
          ),
        )
    unfolding run_checks
    run_checks-eq fix = rw fresh refl

    -- RunChecks without fixes runs each checker once, in the order of their enlistment, and no
    -- fixer. Its report has a check for each, in that order; ChecksSucceeded exactly if each
    -- returned success and no error; and FixesSucceeded, whatever failed.
    pub run_checks-dry :
        ((run_checks false h w).1.1 ≡ (check_all h.items w).1)
        × (names ((run_checks false h w).0.0).checks ≡ listed h.items)
        × (checks_succeeded ((run_checks false h w).0.0) ≡ (check_all h.items w).0)
        × (fixes_succeeded ((run_checks false h w).0.0) ≡ true)
    run_checks-dry =
        let (same, checks, fixes) = run_items-dry h.items empty_report w in
        rw (run_checks-eq false) (same, run_items-names false h.items empty_report w, checks, fixes)

    -- RunChecks with fixes runs each checker once, and right after it its fixer exactly if the
    -- check failed without an error. Its report has a check for each item and a fix for each item
    -- with a fixer, both in the order of the items; and FixesSucceeded exactly if no fixer that
    -- ran returned an error.
    pub run_checks-fix :
        ((run_checks true h w).1.1 ≡ (mend_all h.items w).1)
        × (names (run_checks true h w).0.0.checks ≡ listed h.items)
        × (names (run_checks true h w).0.0.fixes ≡ fixable h.items)
        × (fixes_succeeded (run_checks true h w).0.0 ≡ (mend_all h.items w).0)
    run_checks-fix =
        let (same, fixes, listed_fixes) = run_items-fix h.items empty_report w in
        rw (run_checks-eq true)
          (same, run_items-names true h.items empty_report w, listed_fixes, fixes)

    -- A second RunChecks, with fixes or without, runs nothing and returns the first report.
    pub run_checks-again :
        (fix fix' : Bool)
        → run_checks fix' (run_checks fix h w).1.0 (run_checks fix h w).1.1
          ≡ ((run_checks fix h w).0, (run_checks fix h w).1)
    unfolding run_checks
    run_checks-again fix fix' = rw fresh refl
