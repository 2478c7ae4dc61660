-- ===== src/Suites/RedGreen.antt =====
-- reproduction and green_failure of src/autocontribute/suite_runs.py, and the red and green steps that
-- src/autocontribute/fix_checks.py builds from them.
use autocontribute.Base.{
  ℕ, ◌+◌, String, Option, none, some, Bool, false, not, ◌&&◌, ◌||◌, List, [], ◌∷◌, ◌++◌, map, any,
  keep, length, is_none, if◌then◌else◌, suc, zero,
}
use autocontribute.Base.Dict.{Dict, lookup}
use autocontribute.Errors.{state_error, Result, ok, err}
use autocontribute.Suites.Results.{
  CaseResult, SuiteRun, is_passed, is_failed, is_failing, run_has, contains, sorted, keys, concat,
  occurs_in, within, suite_test_id,
}
use autocontribute.Suites.Baseline.{Baseline}
use autocontribute.Suites.Regression.{is_unusable, is_empty, Runner}

-- Reproduction
pub record Reproduction : Type 0 where
  pub targets : List String
  pub reproduced : List String
  pub uncollected : List String

-- _NOT_REPRODUCED_SIGNATURES
abbrev signatures : List String
signatures =
    "ImportError" ∷ "ModuleNotFoundError" ∷ "SyntaxError" ∷ "IndentationError"
    ∷ "Cannot find module" ∷ "error[E0" ∷ []

-- _not_reproduced
unfoldable pub not_reproduced : String → Bool
not_reproduced message = any (λ text. occurs_in text message) signatures

-- the result is a failure that shows the bug
abbrev pub shows_bug : Option CaseResult → Bool
shows_bug none = false
shows_bug (some r) = is_failed r.status && not (not_reproduced r.message)

abbrev pub is_collection_error : Option CaseResult → Bool
is_collection_error none = false
is_collection_error (some r) = r.collection_error

abbrev is_known : Baseline → String → Bool
is_known baseline t =
    contains t baseline.pass_stable
    || (contains t baseline.fail_before || (contains t baseline.flaky || contains t baseline.skip))

-- a test that the patch adds, or edits so that it fails
abbrev pub is_new : Baseline → SuiteRun → (String → Bool) → String → Bool
is_new baseline red changed t =
    not (is_known baseline t)
    || (contains t baseline.pass_stable && (run_has is_failing t red && changed t))

abbrev pub nothing_found : Reproduction
nothing_found = record { targets = []; reproduced = []; uncollected = [] }

-- the suite as the one target
abbrev pub suite_reproduction : Baseline → SuiteRun → Reproduction
suite_reproduction baseline red =
    let suite = lookup suite_test_id red.results in
    if not (contains suite_test_id baseline.pass_stable) || is_none suite
    then nothing_found
    else record {
      targets = suite_test_id ∷ [];
      reproduced = if shows_bug suite then suite_test_id ∷ [] else [];
      uncollected = [];
    }

-- each new test as a target, or as a file or package that failed as a whole
abbrev pub case_reproduction : SuiteRun → List String → Reproduction
case_reproduction red new =
    let targets = keep (λ t. not (is_collection_error (lookup t red.results))) new in
    record {
      targets = targets;
      reproduced = keep (λ t. shows_bug (lookup t red.results)) targets;
      uncollected = keep (λ t. is_collection_error (lookup t red.results)) new;
    }

-- reproduction
unfoldable pub reproduction : Baseline → SuiteRun → (String → Bool) → Reproduction
reproduction baseline red changed =
    if is_unusable red
    then nothing_found
    else (if not red.per_test
        then suite_reproduction baseline red
        else case_reproduction red (keep (is_new baseline red changed) (sorted (keys red.results))))

-- the results inside a file, module or package
abbrev inside : String → Dict CaseResult → List CaseResult
inside scope [] = []
inside scope ((t, r) ∷ results) =
    let rest = inside scope results in if within t scope then r ∷ rest else rest

abbrev scope_failing : SuiteRun → String → List String
scope_failing run scope =
    let found = inside scope run.results in
    (if contains scope (keys run.results) || not (any (λ r. is_passed r.status) found)
      then scope ∷ []
      else [])
    ++ map (λ r. r.test_id) (keep (λ r. is_failing r.status) found)

-- the patched tests that one run did not pass
unfoldable pub not_passed : Reproduction → SuiteRun → List String
not_passed found run =
    keep (λ t. not (run_has is_passed t run)) found.targets
    ++ concat (map (scope_failing run) found.uncollected)

-- why the green step failed, with the number of the run
pub data GreenFailure : Type 0 where
  not_run : GreenFailure
  broken timed_out : ℕ → GreenFailure
  unpassed : ℕ → List String → GreenFailure

abbrev pub failure_of : ℕ → Reproduction → SuiteRun → Option GreenFailure
failure_of number found run =
    if not (is_none run.failure)
    then some (broken number)
    else (if run.timed_out
        then some (timed_out number)
        else (if is_empty (not_passed found run)
            then none
            else some (unpassed number (not_passed found run))))

-- the runs from a number on
abbrev pub green_from : ℕ → Reproduction → List SuiteRun → Option GreenFailure
green_from number found [] = none
green_from number found (run ∷ runs) =
    let rest = green_from (number + 1) found runs in
    elim (failure_of number found run) [ none ↦ rest | some failure ↦ some failure ]

-- green_failure
unfoldable pub green_failure : Reproduction → List SuiteRun → Option GreenFailure
green_failure found [] = some not_run
green_failure found (run ∷ runs) = green_from 1 found (run ∷ runs)

-- GREEN_RUNS
abbrev pub green_runs : ℕ
green_runs = 3

-- how the loop of green runs ends: without time for a run, or with what was found and a failure
pub data GreenEnd : Type 0 where
  out_of_time : Option Reproduction → GreenEnd
  ended : Option Reproduction → Option GreenFailure → GreenEnd

abbrev found_in : Baseline → (String → Bool) → Option Reproduction → SuiteRun → Reproduction
found_in baseline changed (some found) run = found
found_in baseline changed none run = reproduction baseline run changed

-- the loop, with at most `left` runs to go
unfoldable pub green_loop :
    Baseline → (String → Bool) → Runner → ℕ → List SuiteRun → Option Reproduction → GreenEnd
green_loop baseline changed runner zero green found = ended found none
green_loop baseline changed runner (suc left) green found = elim (runner (length green)) [
  | none ↦ out_of_time found
  | some run ↦
      let now_found = found_in baseline changed found run in
      elim (green_failure now_found (green ++ run ∷ [])) [
        | some failure ↦ ended (some now_found) (some failure)
        | none ↦ green_loop baseline changed runner left (green ++ run ∷ []) (some now_found)
      ]
]

pub data RedGreenStatus : Type 0 where
  passed failed not_applicable : RedGreenStatus

-- RedGreenEvidence, without the detail and the runs
pub record RedGreenEvidence : Type 0 where
  pub status : RedGreenStatus
  pub targets : List String
  pub reproduced : List String
  pub uncollected : List String

-- _red_green
abbrev pub evidence : RedGreenStatus → Option Reproduction → RedGreenEvidence
evidence status none = record { status = status; targets = []; reproduced = []; uncollected = [] }
evidence status (some found) = record {
  status = status;
  targets = found.targets;
  reproduced = found.reproduced;
  uncollected = found.uncollected;
}

abbrev judge : Bool → Reproduction → Option GreenFailure → RedGreenEvidence
judge has_sources found failure =
    if is_none failure && not (has_sources && is_empty found.reproduced)
    then evidence passed (some found)
    else evidence failed (some found)

abbrev pub conclude : Bool → GreenEnd → Result RedGreenEvidence
conclude has_sources (out_of_time found) = ok (evidence failed found)
conclude has_sources (ended none failure) = err state_error
conclude has_sources (ended (some found) failure) = ok (judge has_sources found failure)

-- FixChecks._red_green: whether the patch changes tests that stay and sources, and what the red run and
-- each green run give
unfoldable pub red_green :
    Baseline → (String → Bool) → Bool → Bool → Option SuiteRun → Runner → Result RedGreenEvidence
red_green baseline changed has_tests has_sources red runner =
    if not has_tests
    then ok (evidence not_applicable none)
    else (if not has_sources
        then conclude has_sources (green_loop baseline changed runner green_runs [] none)
        else elim red [
          | none ↦ ok (evidence failed none)
          | some run ↦
              let found = some (reproduction baseline run changed) in
              conclude has_sources (green_loop baseline changed runner green_runs [] found)
        ])
