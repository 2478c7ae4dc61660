-- ===== src/Suites/Results.antt =====
-- The results of one run of a suite, and the parts of Python that read them: sorted texts, substrings and
-- membership. Durations are in microseconds.
use autocontribute.Base.{
  ℕ, String, Option, none, some, Bool, true, false, not, ◌||◌, List, [], ◌∷◌, ◌++◌, any, str_eq,
  is_none, if◌then◌else◌, ◌≡◌, refl, ap, ◌∙◌, arith, eq_iff, inl, inr, Bool-cases,
}
use Prim.Native.String.{◌++◌ as join, compare}
use text.Mathlib.Text.{starts_with, is_lt, find?}
use autocontribute.Base.Dict.{Dict, lookup}

-- CaseStatus
pub data CaseStatus : Type 0 where
  passed failed error skipped : CaseStatus

-- CaseResult
pub record CaseResult : Type 0 where
  pub test_id : String
  pub status : CaseStatus
  pub duration_seconds : Option ℕ
  pub message : String
  pub collection_error : Bool

-- SuiteRun, without the end of its output
pub record SuiteRun : Type 0 where
  pub exit_code : ℕ
  pub timed_out : Bool
  pub duration_seconds : ℕ
  pub results : Dict CaseResult
  pub per_test : Bool
  pub failure : Option String

abbrev pub is_passed : CaseStatus → Bool
is_passed passed = true
is_passed _ = false

abbrev pub is_skipped : CaseStatus → Bool
is_skipped skipped = true
is_skipped _ = false

abbrev pub is_failed : CaseStatus → Bool
is_failed failed = true
is_failed _ = false

-- `status in _FAILING`
abbrev pub is_failing : CaseStatus → Bool
is_failing failed = true
is_failing error = true
is_failing _ = false

-- `status in _REGRESSED`
abbrev pub is_regressed : CaseStatus → Bool
is_regressed status = not (is_passed status)

-- a test that a run does not list has no status
abbrev pub status_of : Option CaseResult → Option CaseStatus
status_of none = none
status_of (some r) = some r.status

abbrev pub holds : (CaseStatus → Bool) → Option CaseStatus → Bool
holds p none = false
holds p (some status) = p status

-- the status of a test in a run satisfies `p`
abbrev pub run_has : (CaseStatus → Bool) → String → SuiteRun → Bool
run_has p test_id run = holds p (status_of (lookup test_id run.results))

abbrev pub contains : String → List String → Bool
contains t ts = any (str_eq t) ts

-- `sorted`
abbrev insert_sorted : String → List String → List String
insert_sorted t [] = t ∷ []
insert_sorted t (u ∷ us) = if is_lt (compare u t) then u ∷ insert_sorted t us else t ∷ u ∷ us

unfoldable pub sorted : List String → List String
sorted [] = []
sorted (t ∷ ts) = insert_sorted t (sorted ts)

-- a set of texts
abbrev pub distinct : List String → List String
distinct [] = []
distinct (t ∷ ts) = let rest = distinct ts in if contains t ts then rest else t ∷ rest

abbrev pub keys {ℓ} : {V : Type ℓ} → Dict V → List String
keys [] = []
keys ((k, v) ∷ d) = k ∷ keys d

abbrev pub concat : List (List String) → List String
concat [] = []
concat (ts ∷ tss) = ts ++ concat tss

-- `needle in text`
abbrev pub occurs_in : String → String → Bool
occurs_in needle text = not (is_none (find? text needle))

-- _within
abbrev pub within : String → String → Bool
within test_id scope = starts_with test_id (join scope "::") || starts_with test_id (join scope ".")

-- SUITE_TEST_ID
abbrev pub suite_test_id : String
suite_test_id = "<suite>"

contains-insert_sorted :
    (t u : String) (us : List String)
    → contains t (insert_sorted u us) ≡ str_eq t u || contains t us
contains-insert_sorted t u [] = refl
contains-insert_sorted t u (w ∷ us) = let ih = contains-insert_sorted t u us in ground arith

pub contains-sorted : (t : String) (ts : List String) → contains t (sorted ts) ≡ contains t ts
unfolding sorted
contains-sorted t [] = refl
contains-sorted t (u ∷ us) =
    contains-insert_sorted t u (sorted us) ∙ ap (λ b. str_eq t u || b) (contains-sorted t us)

pub contains-distinct : (t : String) (ts : List String) → contains t (distinct ts) ≡ contains t ts
contains-distinct t [] = refl
contains-distinct t (u ∷ us) =
    let ih = contains-distinct t us in
    elim (Bool-cases (contains u us)) [
      | inr new ↦ ground arith
      | inl known ↦ elim (Bool-cases (str_eq t u)) [
        | inr other ↦ ground arith
        | inl same ↦
            let name : t ≡ u = ground (arith, eq_iff t u) in
            let there = ap (λ x. contains x us) name in ground arith
      ]
    ]
