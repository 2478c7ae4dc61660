-- ===== src/Suites/Unbroken.antt =====
-- A regression check that passes (src/autocontribute/fix_checks.py).
use autocontribute.Base.{
  ℕ, ◌+◌, ◌<◌, String, Option, none, some, Bool, true, false, not, ◌&&◌, ◌||◌, List, [], ◌∷◌, keep,
  leb, is_none, ◌≡◌, refl, ap, sym, ◌⊎◌, ◌∙◌, arith, inl, inr, Bool-cases, Option-cases, suc, zero,
}
use autocontribute.Base.Dict.{lookup}
use autocontribute.Errors.{ok, Result-cases}
use autocontribute.Suites.Results.{SuiteRun, is_passed, run_has, contains, sorted, contains-sorted}
use autocontribute.Suites.Baseline.{Baseline}
use autocontribute.Suites.Sorted.{contains-keep}
use autocontribute.Suites.Regression.{
  is_unusable, has_failed, new_failures, still_failing, regression_reruns, RegressionRun, is_empty,
  Runner, rerun_failures, regression_run, passed, RegressionEvidence, longest, full_regression,
  found_by, regression_check,
}

-- a test passed in one of the first `count` runs
abbrev pub Passed : Runner → String → ℕ → Type 0
Passed runner t count =
    (n : ℕ) × (run : SuiteRun) × (n < count)
    × (runner n ≡ some run)
    × (run_has is_passed t run ≡ true)

not-failed-passed :
    (run : SuiteRun) (t : String) → has_failed true run t ≡ false → run_has is_passed t run ≡ true
not-failed-passed run t h = elim (Option-cases (lookup t run.results)) [
  | inl missing ↦ absurd (ground arith)
  | inr (result, listed) ↦ ground arith
]

-- a candidate that is no longer failing did not fail in the rerun
still_failing-left :
    (t : String) (found : List String) (rerun : SuiteRun)
    → contains t found ≡ true
    → contains t (still_failing found rerun) ≡ false
    → has_failed true rerun t ≡ false
unfolding still_failing
still_failing-left t found rerun there fixed =
    let all_sorted = contains-sorted t found in
    let some_sorted = contains-sorted t (keep (has_failed true rerun) found) in
    let kept = contains-keep (has_failed true rerun) t found in
    elim (Bool-cases (is_unusable rerun)) [
      | inl unusable ↦ absurd (ground arith)
      | inr usable ↦
          let gone : contains t (sorted (keep (has_failed true rerun) found)) ≡ false =
            ap (contains t) (sym (ground arith)) ∙ fixed in
          ground (arith, gone, some_sorted, kept)
    ]

rerun_failures-Passed :
    (runner : Runner) (t : String) (left n : ℕ) (found : List String)
    → contains t found ≡ true
    → is_empty (rerun_failures runner left n found) ≡ true
    → Passed runner t (n + left)
unfolding rerun_failures still_failing
rerun_failures-Passed runner t zero n [] there h = absurd (ground arith)
rerun_failures-Passed runner t zero n (x ∷ found) there h = absurd (ground arith)
rerun_failures-Passed runner t (suc left) n [] there h = absurd (ground arith)
rerun_failures-Passed runner t (suc left) n (x ∷ found) there h = elim (Option-cases (runner n)) [
  | inl gone ↦ absurd (ground arith)
  | inr (rerun, ran) ↦
      let next = still_failing (x ∷ found) rerun in
      let rest : is_empty (rerun_failures runner left (n + 1) next) ≡ true = ground arith in
      elim (Bool-cases (contains t next)) [
        | inl still ↦
            let (m, run, before, at, passes) =
              rerun_failures-Passed runner t left (n + 1) next still rest in
            (m, run, omega (arith, before), at, passes)
        | inr fixed ↦ (
          n,
          rerun,
          omega arith,
          ran,
          not-failed-passed rerun t (still_failing-left t (x ∷ found) rerun there fixed),
        )
      ]
]

new_failures-contains :
    (baseline : Baseline) (run : SuiteRun) (full_suite : Bool) (found : List String) (t : String)
    → new_failures baseline run [] full_suite ≡ ok found
    → contains t baseline.pass_stable ≡ true
    → contains t found ≡ has_failed full_suite run t
unfolding new_failures
new_failures-contains baseline run full_suite found t h stable =
    let kept =
      contains-keep (λ u. not (contains u []) && has_failed full_suite run u) t
        baseline.pass_stable in
    let same : keep (λ u. not (contains u []) && has_failed full_suite run u) baseline.pass_stable
        ≡ found =
      ground arith in
    ap (contains t) (sym same) ∙ kept ∙ ground (arith, stable)

-- a test that the first run lists, or must list
regression_run-Passed :
    (baseline : Baseline) (runner : Runner) (full_suite : Bool) (run : RegressionRun)
    (first : SuiteRun) (t : String)
    → regression_run baseline runner full_suite ≡ ok (some run)
    → run.unusable ≡ false
    → is_empty run.new_failures ≡ true
    → runner 0 ≡ some first
    → is_none (lookup t first.results) && not full_suite ≡ false
    → contains t baseline.pass_stable ≡ true
    → Passed runner t (1 + regression_reruns)
unfolding regression_run
regression_run-Passed baseline runner full_suite run first t h usable clean began listed stable =
    elim (Bool-cases (is_unusable first)) [
      | inl broken ↦ absurd (ground arith)
      | inr works ↦ elim (Result-cases (new_failures baseline first [] full_suite)) [
        | inr (x, raised) ↦ absurd (ground arith)
        | inl (found, new) ↦
            let empty : is_empty (rerun_failures runner regression_reruns 1 found) ≡ true =
              ground arith in
            let there = new_failures-contains baseline first full_suite found t new stable in
            elim (Bool-cases (contains t found)) [
              | inl fails ↦ rerun_failures-Passed runner t regression_reruns 1 found fails empty
              | inr passes ↦
                  let strict : has_failed true first t ≡ false = ground (arith, there, listed) in
                  (0, first, omega arith, began, not-failed-passed first t strict)
            ]
      ]
    ]

regression_run-began :
    (baseline : Baseline) (runner : Runner) (full_suite : Bool) (run : RegressionRun)
    → regression_run baseline runner full_suite ≡ ok (some run)
    → (first : SuiteRun) × (runner 0 ≡ some first)
unfolding regression_run
regression_run-began baseline runner full_suite run h = elim (Option-cases (runner 0)) [
  | inl gone ↦ absurd (ground arith)
  | inr (first, began) ↦ (first, began)
]

full_run-Passed :
    (baseline : Baseline) (runner : Runner) (run : RegressionRun) (t : String)
    → regression_run baseline runner true ≡ ok (some run)
    → run.unusable ≡ false
    → is_empty run.new_failures ≡ true
    → contains t baseline.pass_stable ≡ true
    → Passed runner t (1 + regression_reruns)
full_run-Passed baseline runner run t ran usable clean stable =
    let (first, began) = regression_run-began baseline runner true run ran in
    regression_run-Passed baseline runner true run first t ran usable clean began (ground arith)
      stable

-- the full suite was not run, and the related tests were
abbrev pub RelatedPassed : Option Runner → String → RegressionEvidence → Type 0
RelatedPassed related t evidence =
    (evidence.full_suite ≡ false)
    × ((command : Runner) × (related ≡ some command)
        × ((first : SuiteRun) × (command 0 ≡ some first)
            × (Passed command t (1 + regression_reruns) ⊎ (lookup t first.results ≡ none))))

full_regression-Passed :
    (baseline : Baseline) (runner : Runner) (timeout : ℕ) (related : Option RegressionRun)
    (evidence : RegressionEvidence) (t : String)
    → full_regression baseline runner timeout related ≡ ok evidence
    → evidence.status ≡ passed
    → contains t baseline.pass_stable ≡ true
    → Passed runner t (1 + regression_reruns)
      ⊎ ((evidence.full_suite ≡ false)
          × ((run : RegressionRun) × (related ≡ some run) × (run.unusable ≡ false)))
unfolding full_regression
full_regression-Passed baseline runner timeout none evidence t h ends stable =
    elim (Bool-cases (baseline.timed_out || leb timeout (longest baseline.durations_seconds))) [
      | inl skipped ↦ absurd (ground arith)
      | inr time ↦ elim (Result-cases (regression_run baseline runner true)) [
        | inr (x, raised) ↦ absurd (ground arith)
        | inl (none, ran) ↦ absurd (ground arith)
        | inl (some run, ran) ↦
            inl (full_run-Passed baseline runner run t ran (ground arith) (ground arith) stable)
      ]
    ]
full_regression-Passed baseline runner timeout (some before) evidence t h ends stable =
    elim (Bool-cases (baseline.timed_out || leb timeout (longest baseline.durations_seconds))) [
      | inl skipped ↦ inr (ground arith, (before, refl, ground arith))
      | inr time ↦ elim (Result-cases (regression_run baseline runner true)) [
        | inr (x, raised) ↦ absurd (ground arith)
        | inl (none, ran) ↦ inr (ground arith, (before, refl, ground arith))
        | inl (some run, ran) ↦
            inl (full_run-Passed baseline runner run t ran (ground arith) (ground arith) stable)
      ]
    ]

-- A fix breaks nothing that was stable. If the regression check passes, then each test that passed in
-- every baseline run passed with the fix in one of at most three runs of the full suite; or the full
-- suite was not run, and the test passed in one of at most three runs of the related tests, or the
-- first of these did not list it.
pub regression_passed :
    (baseline : Baseline) (related : Option Runner) (runner : Runner) (timeout : ℕ)
    (evidence : RegressionEvidence) (t : String)
    → regression_check baseline related runner timeout ≡ ok evidence
    → evidence.status ≡ passed
    → contains t baseline.pass_stable ≡ true
    → Passed runner t (1 + regression_reruns) ⊎ RelatedPassed related t evidence
unfolding regression_check
regression_passed baseline none runner timeout evidence t h ends stable =
    elim (full_regression-Passed baseline runner timeout none evidence t (ground arith) ends
      stable) [ inl full ↦ inl full | inr (part, (run, impossible, usable)) ↦ absurd (cc) ]
regression_passed baseline (some command) runner timeout evidence t h ends stable =
    elim (Result-cases (regression_run baseline command false)) [
      | inr (x, raised) ↦ absurd (ground arith)
      | inl (outcome, ran) ↦ elim (Bool-cases (is_empty (found_by outcome))) [
        | inr found ↦ absurd (ground arith)
        | inl clean ↦
            elim (full_regression-Passed baseline runner timeout outcome evidence t (ground arith)
              ends stable) [
                | inl full ↦ inl full
                | inr (part, (run, same, usable)) ↦
                    let ran_it : regression_run baseline command false ≡ ok (some run) =
                      ran ∙ ap ok same in
                    let nothing_new : is_empty run.new_failures ≡ true =
                      ap (λ o. is_empty (found_by o)) (sym same) ∙ clean in
                    let (first, began) = regression_run-began baseline command false run ran_it in
                    inr (
                      part,
                      (
                        command,
                        refl,
                        (
                          first,
                          began,
                          elim (Bool-cases (is_none (lookup t first.results))) [
                            | inl missing ↦ inr (ground arith)
                            | inr listed ↦ inl (
                                regression_run-Passed baseline command false run first t ran_it
                                  usable nothing_new began (ground arith) stable)
                          ],
                        ),
                      ),
                    )
              ]
      ]
    ]
