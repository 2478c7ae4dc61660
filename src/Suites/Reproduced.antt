-- ===== src/Suites/Reproduced.antt =====
-- A fix that passes the red and green steps fixes a bug that a test shows.
use autocontribute.Base.{
  ℕ, ◌+◌, String, Option, none, some, Bool, true, false, not, ◌||◌, List, [], ◌∷◌, ◌++◌, keep,
  length, length-append, is_none, suc, zero, eq_iff, ◌≡◌, refl, ap, sym, ◌∙◌, arith, inl, inr,
  Bool-cases, Option-cases, subst,
}
use autocontribute.Base.Dict.{lookup}
use autocontribute.Errors.{ok}
use autocontribute.Suites.Results.{
  CaseResult, SuiteRun, is_passed, is_failed, run_has, contains, sorted, keys, suite_test_id,
}
use autocontribute.Suites.Baseline.{Baseline}
use autocontribute.Suites.Sorted.{contains-keep}
use autocontribute.Suites.Regression.{is_unusable, is_empty, Runner}
use autocontribute.Suites.RedGreen.{
  Reproduction, not_reproduced, reproduction, not_passed, failure_of, green_from, green_failure,
  green_runs, GreenEnd, out_of_time, ended, green_loop, passed, RedGreenEvidence, evidence,
  conclude, red_green, shows_bug, is_new, suite_reproduction, case_reproduction,
}

-- a test passed in this many runs in a row, from the n-th on
abbrev pub PassesFrom : Runner → String → ℕ → ℕ → Type 0
PassesFrom runner t n zero = Unit
PassesFrom runner t n (suc left) =
    ((run : SuiteRun) × (runner n ≡ some run) × (run_has is_passed t run ≡ true))
    × PassesFrom runner t (n + 1) left

green_from-last :
    (n : ℕ) (found : Reproduction) (runs : List SuiteRun) (run : SuiteRun)
    → green_from n found (runs ++ run ∷ []) ≡ none
    → is_empty (not_passed found run) ≡ true
green_from-last n found [] run h = ground arith
green_from-last n found (x ∷ runs) run h = elim (Option-cases (failure_of n found x)) [
  | inr (failure, failing) ↦ absurd (ground arith)
  | inl fine ↦ green_from-last (n + 1) found runs run (ground arith)
]

green_failure-last :
    (found : Reproduction) (runs : List SuiteRun) (run : SuiteRun)
    → green_failure found (runs ++ run ∷ []) ≡ none
    → is_empty (not_passed found run) ≡ true
unfolding green_failure
green_failure-last found [] run h = green_from-last 1 found [] run h
green_failure-last found (x ∷ runs) run h = green_from-last 1 found (x ∷ runs) run h

empty-contains :
    (t : String) (us vs : List String) → is_empty (us ++ vs) ≡ true → contains t us ≡ false
empty-contains t [] vs h = refl
empty-contains t (u ∷ us) vs h = absurd (ground arith)

target-passed :
    (found : Reproduction) (run : SuiteRun) (t : String)
    → is_empty (not_passed found run) ≡ true
    → contains t found.targets ≡ true
    → run_has is_passed t run ≡ true
unfolding not_passed
target-passed found run t h target =
    let kept = contains-keep (λ u. not (run_has is_passed u run)) t found.targets in
    let gone = empty-contains t (keep (λ u. not (run_has is_passed u run)) found.targets) _ h in
    ground arith

green_loop-PassesFrom :
    (baseline : Baseline) (changed : String → Bool) (runner : Runner) (t : String) (left : ℕ)
    (green : List SuiteRun) (found : Reproduction) (o : Option Reproduction)
    → green_loop baseline changed runner left green (some found) ≡ ended o none
    → contains t found.targets ≡ true
    → PassesFrom runner t (length green) left
unfolding green_loop
green_loop-PassesFrom baseline changed runner t zero green found o h target = tt
green_loop-PassesFrom baseline changed runner t (suc left) green found o h target =
    elim (Option-cases (runner (length green))) [
      | inl gone ↦ absurd (ground arith)
      | inr (run, ran) ↦ elim (Option-cases (green_failure found (green ++ run ∷ []))) [
        | inr (failure, failing) ↦ absurd (ground arith)
        | inl fine ↦
            let rest =
              green_loop-PassesFrom baseline changed runner t left (green ++ run ∷ []) found o
                (ground arith) target in
            let passes =
              target-passed found run t (green_failure-last found green run fine) target in
            let longer : length (green ++ run ∷ []) ≡ length green + 1 =
              length-append green (run ∷ []) ∙ ground arith in
            ((run, ran, passes), subst (λ n. PassesFrom runner t n left) longer rest)
      ]
    ]

-- what was found first stays
green_loop-same :
    (baseline : Baseline) (changed : String → Bool) (runner : Runner) (left : ℕ)
    (green : List SuiteRun) (found : Reproduction) (o : Option Reproduction)
    → green_loop baseline changed runner left green (some found) ≡ ended o none
    → o ≡ some found
unfolding green_loop
green_loop-same baseline changed runner zero green found o h = ground arith
green_loop-same baseline changed runner (suc left) green found o h =
    elim (Option-cases (runner (length green))) [
      | inl gone ↦ absurd (ground arith)
      | inr (run, ran) ↦ elim (Option-cases (green_failure found (green ++ run ∷ []))) [
        | inr (failure, failing) ↦ absurd (ground arith)
        | inl fine ↦
            green_loop-same baseline changed runner left (green ++ run ∷ []) found o (ground arith)
      ]
    ]

-- the failure of a test in a run shows the bug
abbrev pub ShowsBug : SuiteRun → String → Type 0
ShowsBug run t =
    (result : CaseResult) × (lookup t run.results ≡ some result)
    × (is_failed result.status ≡ true)
    × (not_reproduced result.message ≡ false)

first_of : (ts : List String) → is_empty ts ≡ false → (t : String) × (contains t ts ≡ true)
first_of [] h = absurd (cc)
first_of (t ∷ ts) h = (t, ground (arith, eq_iff t t))

shows_bug-ShowsBug :
    (red : SuiteRun) (t : String) → shows_bug (lookup t red.results) ≡ true → ShowsBug red t
shows_bug-ShowsBug red t h = elim (Option-cases (lookup t red.results)) [
  | inl missing ↦ absurd (ground arith)
  | inr (result, listed) ↦ (result, listed, ground arith, ground arith)
]

case-ShowsBug :
    (red : SuiteRun) (new : List String) (t : String)
    → contains t (case_reproduction red new).reproduced ≡ true
    → (contains t (case_reproduction red new).targets ≡ true) × ShowsBug red t
case-ShowsBug red new t h =
    let kept =
      contains-keep (λ u. shows_bug (lookup u red.results)) t (case_reproduction red new).targets in
    (ground (arith, kept), shows_bug-ShowsBug red t (ground (arith, kept)))

suite-ShowsBug :
    (baseline : Baseline) (red : SuiteRun) (t : String)
    → contains t (suite_reproduction baseline red).reproduced ≡ true
    → (contains t (suite_reproduction baseline red).targets ≡ true) × ShowsBug red t
suite-ShowsBug baseline red t h =
    let suite = lookup suite_test_id red.results in
    elim (Bool-cases (not (contains suite_test_id baseline.pass_stable) || is_none suite)) [
      | inl nothing ↦ absurd (ground arith)
      | inr known ↦ elim (Bool-cases (shows_bug suite)) [
        | inr hidden ↦ absurd (ground arith)
        | inl shown ↦
            let name : t ≡ suite_test_id = ground (arith, eq_iff t suite_test_id) in
            (
              ground arith,
              subst (ShowsBug red) (sym name) (shows_bug-ShowsBug red suite_test_id shown),
            )
      ]
    ]

abbrev Reproduces : SuiteRun → String → Reproduction → Type 0
Reproduces red t found = (contains t found.targets ≡ true) × ShowsBug red t

reproduction-ShowsBug :
    (baseline : Baseline) (red : SuiteRun) (changed : String → Bool) (t : String)
    → contains t (reproduction baseline red changed).reproduced ≡ true
    → Reproduces red t (reproduction baseline red changed)
unfolding reproduction
reproduction-ShowsBug baseline red changed t h = elim (Bool-cases (is_unusable red)) [
  | inl unusable ↦ absurd (ground arith)
  | inr usable ↦ elim (Bool-cases red.per_test) [
    | inr whole ↦
        let same : reproduction baseline red changed ≡ suite_reproduction baseline red =
          ground arith in
        subst (Reproduces red t) (sym same)
          (suite-ShowsBug baseline red t (ap (λ f. contains t f.reproduced) (sym same) ∙ h))
    | inl each ↦
        let new = keep (is_new baseline red changed) (sorted (keys red.results)) in
        let same : reproduction baseline red changed ≡ case_reproduction red new = ground arith in
        subst (Reproduces red t) (sym same)
          (case-ShowsBug red new t (ap (λ f. contains t f.reproduced) (sym same) ∙ h))
  ]
]

-- what is concluded from a loop, where it passes
conclude-passed :
    (end : GreenEnd) (e : RedGreenEvidence)
    → conclude true end ≡ ok e
    → e.status ≡ passed
    → (found : Reproduction) × (end ≡ ended (some found) none)
      × (is_empty found.reproduced ≡ false)
      × (e ≡ evidence passed (some found))
conclude-passed (out_of_time none) e h ends = absurd (ground arith)
conclude-passed (out_of_time (some found)) e h ends = absurd (ground arith)
conclude-passed (ended none failure) e h ends = absurd (ground arith)
conclude-passed (ended (some found) (some failure)) e h ends = absurd (ground arith)
conclude-passed (ended (some found) none) e h ends = elim (Bool-cases (is_empty found.reproduced)) [
  | inl nothing ↦ absurd (ground arith)
  | inr shown ↦ (found, refl, shown, ground arith)
]

-- A fix that passes fixes something. If a patch changes tests and sources and the red and green steps
-- pass, then some target is reported as reproduced that, without the fix, failed with a message that
-- is no import, syntax or collection error, and that passed with the fix in three runs in a row.
pub red_green_passed :
    (baseline : Baseline) (changed : String → Bool) (red : Option SuiteRun) (runner : Runner)
    (e : RedGreenEvidence)
    → red_green baseline changed true true red runner ≡ ok e
    → e.status ≡ passed
    → (t : String) × (contains t e.reproduced ≡ true)
      × ((run : SuiteRun) × (red ≡ some run) × ShowsBug run t)
      × PassesFrom runner t 0 green_runs
unfolding red_green
red_green_passed baseline changed none runner e h ends = absurd (ground arith)
red_green_passed baseline changed (some run) runner e h ends =
    let first = reproduction baseline run changed in
    let loop = green_loop baseline changed runner green_runs [] (some first) in
    let (found, end, shown, result) = conclude-passed loop e h ends in
    let (t, there) = first_of found.reproduced shown in
    let same : found ≡ first =
      ground
        (arith, green_loop-same baseline changed runner green_runs [] first (some found) end) in
    let (target, bug) =
      reproduction-ShowsBug baseline run changed t
        (ap (λ f. contains t f.reproduced) (sym same) ∙ there) in
    (
      t,
      ap (λ x. contains t x.reproduced) result ∙ there,
      (run, refl, bug),
      green_loop-PassesFrom baseline changed runner t green_runs [] first (some found) end target,
    )
