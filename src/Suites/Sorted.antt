-- ===== src/Suites/Sorted.antt =====
-- Every test of a baseline is in the list that its results call for (summarize_baseline of
-- src/autocontribute/suite_runs.py).
use autocontribute.Base.{
  ℕ, ◌+◌, String, Option, none, some, Bool, true, false, not, ◌&&◌, ◌||◌, List, [], ◌∷◌, ◌++◌, map,
  any, all, keep, str_eq, eq_iff, length, ◌≡◌, refl, ap, sym, ◌⊎◌, ◌∙◌, arith, inl, inr, Bool-cases,
}
use autocontribute.Base.Dict.{lookup}
use autocontribute.Suites.Results.{
  CaseStatus, SuiteRun, is_passed, is_skipped, is_failing, status_of, holds, run_has, contains,
  distinct, keys, concat, contains-sorted, contains-distinct,
}
use autocontribute.Suites.Baseline.{
  Baseline, tests_of, Class, stable_pass, skips, fails_before, unstable, classify, is_class,
  of_class, summarize_baseline,
}

-- some run lists the test
abbrev pub is_listed : List SuiteRun → String → Bool
is_listed runs t = any (λ run. contains t (keys run.results)) runs

contains-append :
    (t : String) (us vs : List String) → contains t (us ++ vs) ≡ contains t us || contains t vs
contains-append t [] vs = refl
contains-append t (u ∷ us) vs = let ih = contains-append t us vs in ground arith

contains-concat :
    (t : String) (runs : List SuiteRun)
    → contains t (concat (map (λ run. keys run.results) runs)) ≡ is_listed runs t
contains-concat t [] = refl
contains-concat t (run ∷ runs) =
    contains-append t (keys run.results) (concat (map (λ r. keys r.results) runs))
    ∙ ap (λ b. contains t (keys run.results) || b) (contains-concat t runs)

tests_of-is_listed :
    (t : String) (runs : List SuiteRun) → contains t (tests_of runs) ≡ is_listed runs t
tests_of-is_listed t runs =
    contains-sorted t (distinct (concat (map (λ run. keys run.results) runs)))
    ∙ contains-distinct t (concat (map (λ run. keys run.results) runs))
    ∙ contains-concat t runs

pub contains-keep :
    (p : String → Bool) (t : String) (us : List String)
    → contains t (keep p us) ≡ contains t us && p t
contains-keep p t [] = refl
contains-keep p t (u ∷ us) =
    let ih = contains-keep p t us in
    elim (Bool-cases (str_eq t u)) [
      | inl same ↦
          let name : t ≡ u = ground (arith, eq_iff t u) in
          let truth = ap p name in
          elim (Bool-cases (p u)) [ inl kept ↦ ground arith | inr left ↦ ground arith ]
      | inr other ↦ elim (Bool-cases (p u)) [ inl kept ↦ ground arith | inr left ↦ ground arith ]
    ]

Class-cases :
    (c : Class) → ((c ≡ stable_pass) ⊎ (c ≡ fails_before)) ⊎ ((c ≡ unstable) ⊎ (c ≡ skips))
Class-cases stable_pass = inl (inl refl)
Class-cases fails_before = inl (inr refl)
Class-cases unstable = inr (inl refl)
Class-cases skips = inr (inr refl)

abbrev count_class : Class → List SuiteRun → List String → ℕ
count_class c runs ts = length (keep (λ t. is_class c (classify runs t)) ts)

of_class-sizes :
    (runs : List SuiteRun) (ts : List String)
    → length ts
      ≡ count_class stable_pass runs ts
        + count_class fails_before runs ts
        + count_class unstable runs ts
        + count_class skips runs ts
of_class-sizes runs [] = omega arith
of_class-sizes runs (t ∷ ts) =
    let ih = of_class-sizes runs ts in
    elim (Class-cases (classify runs t)) [
      | inl (inl c) ↦ ground arith
      | inl (inr c) ↦ ground arith
      | inr (inl c) ↦ ground arith
      | inr (inr c) ↦ ground arith
    ]

-- two tests of a status that exclude each other hold of all runs only when there is none
exclusive :
    (p q : CaseStatus → Bool) (runs : List SuiteRun) (t : String)
    → ((s : Option CaseStatus) → holds p s && holds q s ≡ false)
    → is_listed runs t ≡ true
    → all (run_has p t) runs && all (run_has q t) runs ≡ false
exclusive p q [] t never listed = absurd (ground arith)
exclusive p q (run ∷ runs) t never listed =
    let apart = never (status_of (lookup t run.results)) in ground arith

passed-not-skipped : (s : Option CaseStatus) → holds is_passed s && holds is_skipped s ≡ false
passed-not-skipped none = refl
passed-not-skipped (some CaseStatus.passed) = refl
passed-not-skipped (some CaseStatus.failed) = refl
passed-not-skipped (some CaseStatus.error) = refl
passed-not-skipped (some CaseStatus.skipped) = refl

failing-not-passed : (s : Option CaseStatus) → holds is_passed s && holds is_failing s ≡ false
failing-not-passed none = refl
failing-not-passed (some CaseStatus.passed) = refl
failing-not-passed (some CaseStatus.failed) = refl
failing-not-passed (some CaseStatus.error) = refl
failing-not-passed (some CaseStatus.skipped) = refl

failing-not-skipped : (s : Option CaseStatus) → holds is_skipped s && holds is_failing s ≡ false
failing-not-skipped none = refl
failing-not-skipped (some CaseStatus.passed) = refl
failing-not-skipped (some CaseStatus.failed) = refl
failing-not-skipped (some CaseStatus.error) = refl
failing-not-skipped (some CaseStatus.skipped) = refl

-- the class of a test that some run lists
classify-listed :
    (runs : List SuiteRun) (t : String)
    → is_listed runs t ≡ true
    → (is_class stable_pass (classify runs t) ≡ all (run_has is_passed t) runs)
      × (is_class skips (classify runs t) ≡ all (run_has is_skipped t) runs)
      × (is_class fails_before (classify runs t) ≡ all (run_has is_failing t) runs)
      × (is_class unstable (classify runs t)
          ≡ not (
              all (run_has is_passed t) runs
              || all (run_has is_skipped t) runs
              || all (run_has is_failing t) runs))
unfolding classify
classify-listed runs t listed =
    let a = exclusive is_passed is_skipped runs t passed-not-skipped listed in
    let b = exclusive is_passed is_failing runs t failing-not-passed listed in
    let c = exclusive is_skipped is_failing runs t failing-not-skipped listed in
    (ground arith, ground arith, ground arith, ground arith)

of_class-contains :
    (c : Class) (runs : List SuiteRun) (t : String)
    → contains t (of_class c runs) ≡ is_listed runs t && is_class c (classify runs t)
of_class-contains c runs t =
    contains-keep (λ u. is_class c (classify runs u)) t (tests_of runs)
    ∙ ap (λ b. b && is_class c (classify runs t)) (tests_of-is_listed t runs)

-- every list together
abbrev pub sizes : Baseline → ℕ
sizes b = length b.pass_stable + length b.fail_before + length b.flaky + length b.skip

-- The baseline sorts its tests. A test is listed as passing when some run lists it and it passed in
-- every run, and likewise as skipped or as failing before, where a failure may be an error; it is
-- flaky when some run lists it and none of the three holds. The lists together have as many tests
-- as were collected.
pub baseline_sorted :
    (runs : List SuiteRun) (base_sha t : String)
    → (let b = summarize_baseline runs base_sha in
        let every : (CaseStatus → Bool) → Bool = λ p. is_listed runs t && all (run_has p t) runs in
        (contains t b.pass_stable ≡ every is_passed)
        × (contains t b.skip ≡ every is_skipped)
        × (contains t b.fail_before ≡ every is_failing)
        × (contains t b.flaky
            ≡ is_listed runs t
              && not (
                  all (run_has is_passed t) runs
                  || all (run_has is_skipped t) runs
                  || all (run_has is_failing t) runs))
        × (sizes b ≡ b.collected))
unfolding summarize_baseline
baseline_sorted runs base_sha t =
    let passing = of_class-contains stable_pass runs t in
    let skipping = of_class-contains skips runs t in
    let failing = of_class-contains fails_before runs t in
    let flaking = of_class-contains unstable runs t in
    let counted = sym (of_class-sizes runs (tests_of runs)) in
    elim (Bool-cases (is_listed runs t)) [
      | inr unlisted ↦ (ground arith, ground arith, ground arith, ground arith, counted)
      | inl listed ↦
          let (pass, skip, fail, flaky) = classify-listed runs t listed in
          (ground arith, ground arith, ground arith, ground arith, counted)
    ]
