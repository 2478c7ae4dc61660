-- ===== src/Suites/Baseline.antt =====
-- run_baseline and summarize_baseline: the unmodified base is run twice or three times, and every test
-- is sorted by whether its result held.
use autocontribute.Base.{
  ℕ, String, Option, none, some, Bool, true, false, not, ◌&&◌, ◌||◌, List, [], ◌∷◌, map, any, all,
  keep, length, ◌==◌, is_none, if◌then◌else◌, max,
}
use autocontribute.Base.Dict.{Dict, lookup}
use autocontribute.Suites.Results.{
  CaseStatus, CaseResult, SuiteRun, is_passed, is_skipped, is_failing, status_of, run_has, sorted,
  distinct, keys, concat,
}

-- EnvironmentBaseline
pub record Baseline : Type 0 where
  pub base_sha : String
  pub exit_codes : List ℕ
  pub durations_seconds : List ℕ
  pub per_test : Bool
  pub timed_out : Bool
  pub collected : ℕ
  pub pass_stable : List String
  pub fail_before : List String
  pub flaky : List String
  pub skip : List String
  pub test_durations : Dict ℕ

abbrev pub same_status : Option CaseStatus → Option CaseStatus → Bool
same_status none none = true
same_status (some CaseStatus.passed) (some CaseStatus.passed) = true
same_status (some CaseStatus.failed) (some CaseStatus.failed) = true
same_status (some CaseStatus.error) (some CaseStatus.error) = true
same_status (some CaseStatus.skipped) (some CaseStatus.skipped) = true
same_status _ _ = false

-- `_statuses(a) == _statuses(b)`
abbrev pub same_statuses : SuiteRun → SuiteRun → Bool
same_statuses a b =
    let agree : String → Bool =
      λ t. same_status (status_of (lookup t a.results)) (status_of (lookup t b.results)) in
    all agree (keys a.results) && all agree (keys b.results)

-- every test that any run lists, as a set
abbrev pub tests_of : List SuiteRun → List String
tests_of runs = sorted (distinct (concat (map (λ run. keys run.results) runs)))

-- where a test goes
pub data Class : Type 0 where
  stable_pass skips fails_before unstable : Class

-- the tests `statuses == {"passed"}` and so on, over the runs' statuses of one test
unfoldable pub classify : List SuiteRun → String → Class
classify runs test_id =
    if all (run_has is_passed test_id) runs
    then stable_pass
    else (if all (run_has is_skipped test_id) runs
        then skips
        else (if all (run_has is_failing test_id) runs then fails_before else unstable))

abbrev pub is_class : Class → Class → Bool
is_class stable_pass stable_pass = true
is_class skips skips = true
is_class fails_before fails_before = true
is_class unstable unstable = true
is_class _ _ = false

abbrev pub of_class : Class → List SuiteRun → List String
of_class c runs = keep (λ t. is_class c (classify runs t)) (tests_of runs)

abbrev pub or_zero : Option ℕ → ℕ
or_zero none = 0
or_zero (some n) = n

abbrev pub timing : Option CaseResult → ℕ
timing none = 0
timing (some r) = or_zero r.duration_seconds

-- the longest duration of a test in any run, 0 where no run has one
abbrev pub longest : List SuiteRun → String → ℕ
longest [] t = 0
longest (run ∷ runs) t = max (timing (lookup t run.results)) (longest runs t)

abbrev pub durations : List SuiteRun → List String → Dict ℕ
durations runs [] = []
durations runs (t ∷ ts) =
    let rest = durations runs ts in if longest runs t == 0 then rest else (t, longest runs t) ∷ rest

-- summarize_baseline
unfoldable pub summarize_baseline : List SuiteRun → String → Baseline
summarize_baseline runs base_sha = record {
  base_sha = base_sha;
  exit_codes = map (λ run. run.exit_code) runs;
  durations_seconds = map (λ run. run.duration_seconds) runs;
  per_test = all (λ run. run.per_test) runs;
  timed_out = any (λ run. run.timed_out) runs;
  collected = length (tests_of runs);
  pass_stable = of_class stable_pass runs;
  fail_before = of_class fails_before runs;
  flaky = of_class unstable runs;
  skip = of_class skips runs;
  test_durations = durations runs (tests_of runs);
}

-- run_baseline, with what its first, second and third run give
unfoldable pub run_baseline : SuiteRun → SuiteRun → SuiteRun → List SuiteRun
run_baseline first second third =
    if first.timed_out || not (is_none first.failure)
    then first ∷ []
    else (if same_statuses first second then first ∷ second ∷ [] else first ∷ second ∷ third ∷ [])
