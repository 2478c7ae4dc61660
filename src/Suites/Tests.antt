-- ===== src/Suites/Tests.antt =====
-- A suite of two tests, a patch that adds a third, and the theorems at these runs.
use autocontribute.Base.{
  ◌≤◌, List, length, ◌+◌, String, none, some, Bool, true, false, not, ◌&&◌, ◌||◌, [], ◌∷◌, all, ◌≡◌,
  ◌⊎◌, refl, zero, suc,
}
use autocontribute.Errors.{ok}
use autocontribute.Base.Dict.{Dict, lookup}
use autocontribute.Suites.Results.{
  status_of, CaseStatus, CaseResult, SuiteRun, is_passed, is_skipped, is_failing, run_has, contains,
  sorted,
}
use autocontribute.Suites.Report.{merge, parse_report, worst, max_tests, parse_report-worst}
use autocontribute.Suites.Baseline.{Baseline, classify, summarize_baseline, run_baseline}
use autocontribute.Suites.Sorted.{is_listed, sizes, baseline_sorted}
use autocontribute.Suites.Regression.{
  Runner, RegressionEvidence, RegressionStatus, new_failures, still_failing, rerun_failures,
  regression_run, full_regression, regression_check, regression_reruns,
}
use autocontribute.Suites.Unbroken.{Passed, RelatedPassed, regression_passed}
use autocontribute.Suites.RedGreen.{
  not_reproduced, reproduction, not_passed, green_failure, green_loop, green_runs, RedGreenEvidence,
  RedGreenStatus, red_green,
}
use autocontribute.Suites.Reproduced.{PassesFrom, ShowsBug, red_green_passed}

abbrev case_of : String → CaseStatus → String × CaseResult
case_of t status = (
  t,
  record {
    test_id = t;
    status = status;
    duration_seconds = none;
    message = "assert 1 == 2";
    collection_error = false;
  },
)

abbrev run_of : Dict CaseResult → SuiteRun
run_of results = record {
  exit_code = 0;
  timed_out = false;
  duration_seconds = 10;
  results = results;
  per_test = true;
  failure = none;
}

abbrev base_run : SuiteRun
base_run = run_of (case_of "b" CaseStatus.passed ∷ case_of "a" CaseStatus.passed ∷ [])

-- the second run, in which b flakes
abbrev flaky_run : SuiteRun
flaky_run = run_of (case_of "b" CaseStatus.error ∷ case_of "a" CaseStatus.passed ∷ [])

abbrev red_run : SuiteRun
red_run = run_of (case_of "new" CaseStatus.failed ∷ case_of "a" CaseStatus.passed ∷ [])

abbrev green_run : SuiteRun
green_run = run_of (case_of "new" CaseStatus.passed ∷ case_of "a" CaseStatus.passed ∷ [])

three_runs : run_baseline base_run flaky_run base_run ≡ base_run ∷ flaky_run ∷ base_run ∷ []
unfolding run_baseline
three_runs = refl

sorts_flaky : (summarize_baseline (base_run ∷ flaky_run ∷ base_run ∷ []) "sha").flaky ≡ "b" ∷ []
unfolding summarize_baseline classify sorted
sorts_flaky = refl

abbrev stable : Baseline
stable = record {
  base_sha = "sha";
  exit_codes = 0 ∷ [];
  durations_seconds = 10 ∷ [];
  per_test = true;
  timed_out = false;
  collected = 2;
  pass_stable = "a" ∷ [];
  fail_before = [];
  flaky = "b" ∷ [];
  skip = [];
  test_durations = [];
}

abbrev any_change : String → Bool
any_change t = true

abbrev always : SuiteRun → Runner
always run n = some run

-- the suite, which loses `a` in the first run only
abbrev loses_once : Runner
loses_once zero = some (run_of [])
loses_once (suc n) = some green_run

abbrev found_new : RedGreenEvidence
found_new = record {
  status = RedGreenStatus.passed;
  targets = "new" ∷ [];
  reproduced = "new" ∷ [];
  uncollected = [];
}

fixes : red_green stable any_change true true (some red_run) (always green_run) ≡ ok found_new
unfolding red_green green_loop green_failure not_passed reproduction not_reproduced sorted
fixes = refl

abbrev clean : RegressionEvidence
clean = record { status = RegressionStatus.passed; full_suite = true; new_failures = [] }

keeps : regression_check stable none loses_once 60 ≡ ok clean
unfolding regression_check full_regression regression_run new_failures rerun_failures still_failing
    sorted
keeps = refl

baseline_sorted_example :
    (let b = summarize_baseline (base_run ∷ flaky_run ∷ []) "sha" in
      let every : (CaseStatus → Bool) → Bool = λ p.
        is_listed (base_run ∷ flaky_run ∷ []) "b"
        && all (run_has p "b") (base_run ∷ flaky_run ∷ []) in
      (contains "b" b.pass_stable ≡ every is_passed)
      × (contains "b" b.skip ≡ every is_skipped)
      × (contains "b" b.fail_before ≡ every is_failing)
      × (contains "b" b.flaky
          ≡ is_listed (base_run ∷ flaky_run ∷ []) "b"
            && not (
                all (run_has is_passed "b") (base_run ∷ flaky_run ∷ [])
                || all (run_has is_skipped "b") (base_run ∷ flaky_run ∷ [])
                || all (run_has is_failing "b") (base_run ∷ flaky_run ∷ [])))
      × (sizes b ≡ b.collected))
baseline_sorted_example = baseline_sorted (base_run ∷ flaky_run ∷ []) "sha" "b"

regression_passed_example :
    Passed loses_once "a" (1 + regression_reruns) ⊎ RelatedPassed none "a" clean
regression_passed_example = regression_passed stable none loses_once 60 clean "a" keeps refl refl

red_green_passed_example :
    (t : String) × (contains t found_new.reproduced ≡ true)
    × ((run : SuiteRun) × (some red_run ≡ some run) × ShowsBug run t)
    × PassesFrom (always green_run) t 0 green_runs
red_green_passed_example =
    red_green_passed stable any_change (some red_run) (always green_run) found_new fixes refl

-- a name that two test binaries share
abbrev twice : List CaseResult
twice =
    record {
      test_id = "a";
      status = CaseStatus.passed;
      duration_seconds = none;
      message = "";
      collection_error = false;
    }
    ∷ record {
      test_id = "a";
      status = CaseStatus.failed;
      duration_seconds = none;
      message = "";
      collection_error = false;
    }
    ∷ []

abbrev read_twice : Dict CaseResult
read_twice =
    (
      "a",
      record {
        test_id = "a";
        status = CaseStatus.failed;
        duration_seconds = none;
        message = "";
        collection_error = false;
      },
    )
    ∷ []

reads_twice : parse_report 100 (some (ok twice)) ≡ ok read_twice
unfolding parse_report merge
reads_twice = refl

parse_report-worst_example :
    (status_of (lookup "a" read_twice) ≡ worst "a" twice) × (length read_twice ≤ max_tests)
parse_report-worst_example = parse_report-worst 100 twice read_twice "a" reads_twice
