-- ===== src/Suites/Regression.antt =====
-- new_failures and still_failing of src/autocontribute/suite_runs.py, and the regression check that
-- src/autocontribute/fix_checks.py builds from them.
use autocontribute.Base.{
  ℕ, ◌+◌, String, Option, none, some, Bool, true, false, not, ◌&&◌, ◌||◌, List, [], ◌∷◌, keep, leb,
  is_none, if◌then◌else◌, max, suc, zero,
}
use autocontribute.Base.Dict.{lookup}
use autocontribute.Errors.{value_error, Result, ok, ◌>>=◌, ◌>>◌, raise_if}
use autocontribute.Suites.Results.{SuiteRun, is_regressed, run_has, contains, sorted}
use autocontribute.Suites.Baseline.{Baseline}

-- the run says nothing about individual tests
abbrev pub is_unusable : SuiteRun → Bool
is_unusable run = not (is_none run.failure) || run.timed_out

-- a test that a run lost, where that counts, or in which it regressed
abbrev pub has_failed : Bool → SuiteRun → String → Bool
has_failed full_suite run t =
    (is_none (lookup t run.results) && full_suite) || run_has is_regressed t run

-- new_failures
unfoldable pub new_failures : Baseline → SuiteRun → List String → Bool → Result (List String)
new_failures baseline run removed_tests full_suite = do
  raise_if (is_unusable run) value_error
  ok (
      keep (λ t. not (contains t removed_tests) && has_failed full_suite run t)
        baseline.pass_stable)

-- still_failing
unfoldable pub still_failing : List String → SuiteRun → List String
still_failing candidates rerun =
    if is_unusable rerun
    then sorted candidates
    else sorted (keep (has_failed true rerun) candidates)

-- REGRESSION_RERUNS
abbrev pub regression_reruns : ℕ
regression_reruns = 2

-- _RegressionRun
pub record RegressionRun : Type 0 where
  pub unusable : Bool
  pub new_failures : List String

abbrev pub is_empty : List String → Bool
is_empty [] = true
is_empty (_ ∷ _) = false

-- What the n-th run of one command gives, or nothing when no second is left for it.
abbrev pub Runner : Type 0
Runner = ℕ → Option SuiteRun

-- the reruns of `found` from the n-th on, at most `left` of them
unfoldable pub rerun_failures : Runner → ℕ → ℕ → List String → List String
rerun_failures runner zero n found = found
rerun_failures runner (suc left) n found = if is_empty found then found else elim (runner n) [
  | none ↦ found
  | some rerun ↦ rerun_failures runner left (n + 1) (still_failing found rerun)
]

-- FixChecks._regression_run; nothing when out of time
unfoldable pub regression_run : Baseline → Runner → Bool → Result (Option RegressionRun)
regression_run baseline runner full_suite = elim (runner 0) [
  | none ↦ ok none
  | some run ↦
      if is_unusable run
      then ok (some (record { unusable = true; new_failures = [] }))
      else (new_failures baseline run [] full_suite >>= λ found. ok (
          some (record {
            unusable = false;
            new_failures = rerun_failures runner regression_reruns 1 found;
          })))
]

pub data RegressionStatus : Type 0 where
  passed failed not_run : RegressionStatus

-- RegressionEvidence, without the detail and the runs
pub record RegressionEvidence : Type 0 where
  pub status : RegressionStatus
  pub full_suite : Bool
  pub new_failures : List String

abbrev pub longest : List ℕ → ℕ
longest [] = 0
longest (n ∷ ns) = max n (longest ns)

abbrev pub regression : RegressionStatus → Bool → List String → RegressionEvidence
regression status full_suite found = record {
  status = status;
  full_suite = full_suite;
  new_failures = found;
}

-- what is concluded when the full suite was not run
abbrev pub without_full_suite : Option RegressionRun → RegressionEvidence
without_full_suite none = regression not_run false []
without_full_suite (some outcome) =
    if outcome.unusable then regression failed false [] else regression passed false []

-- the full suite, where the related run showed no new failure
unfoldable pub full_regression :
    Baseline → Runner → ℕ → Option RegressionRun → Result RegressionEvidence
full_regression baseline runner timeout related =
    if baseline.timed_out || leb timeout (longest baseline.durations_seconds)
    then ok (without_full_suite related)
    else (regression_run baseline runner true >>= λ outcome. ok (elim outcome [
      | none ↦ without_full_suite related
      | some run ↦
          if run.unusable
          then regression failed true []
          else (if not (is_empty run.new_failures)
              then regression failed true run.new_failures
              else regression passed true [])
    ]))

abbrev pub found_by : Option RegressionRun → List String
found_by none = []
found_by (some run) = run.new_failures

-- FixChecks._regression, with the runs of the related tests, where there is a command for them, those
-- of the full suite, and the time left for a run after the related ones
unfoldable pub regression_check : Baseline → Option Runner → Runner → ℕ → Result RegressionEvidence
regression_check baseline related runner timeout = elim related [
  | none ↦ full_regression baseline runner timeout none
  | some command ↦
      (regression_run baseline command false >>= λ outcome.
      (if not (is_empty (found_by outcome))
        then ok (regression failed false (found_by outcome))
        else full_regression baseline runner timeout outcome))
]
