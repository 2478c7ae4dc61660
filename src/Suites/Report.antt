-- ===== src/Suites/Report.antt =====
-- parse_report of src/autocontribute/suite_results.py: the cases that a framework's reader gives become one
-- result for each test.
use autocontribute.Base.{
  ℕ, ◌+◌, ◌*◌, ◌≤◌, String, Option, none, some, false, List, [], ◌∷◌, length, leb, ltb, str_eq,
  eq_iff, is_none, if◌then◌else◌, ◌≡◌, refl, ap, sym, ◌∙◌, inl, inr, arith, Bool-cases,
  Option-cases,
}
use autocontribute.Base.Dict.{Dict, lookup, insert, lookup-insert}
use autocontribute.Errors.{suite_report_error, Result, ok, err, ◌>>=◌, ◌>>◌, raise_if}
use autocontribute.Suites.Results.{
  CaseStatus, passed, failed, error, skipped, CaseResult, status_of,
}

-- _SEVERITY
abbrev pub severity : CaseStatus → ℕ
severity skipped = 0
severity passed = 1
severity failed = 2
severity error = 3

-- MAX_REPORT_BYTES
abbrev pub max_report_bytes : ℕ
max_report_bytes = 64 * 1024 * 1024

-- _MAX_TESTS
abbrev pub max_tests : ℕ
max_tests = 200_000

-- the loop over the reader's cases
unfoldable pub merge : List CaseResult → Dict CaseResult → Result (Dict CaseResult)
merge [] results = ok results
merge (r ∷ rs) results = elim (lookup r.test_id results) [
  | none ↦
      if leb max_tests (length results)
      then err suite_report_error
      else merge rs (insert r.test_id r results)
  | some existing ↦
      if ltb (severity existing.status) (severity r.status)
      then merge rs (insert r.test_id r results)
      else merge rs results
]

-- parse_report, with the size of the report and what the framework's reader makes of it, if it has one
unfoldable pub parse_report : ℕ → Option (Result (List CaseResult)) → Result (Dict CaseResult)
parse_report size reader =
    raise_if (ltb max_report_bytes size) suite_report_error
    >> (elim reader [ none ↦ err suite_report_error | some cases ↦ (cases >>= λ rs. merge rs []) ])

-- the worse of two statuses
abbrev pub worse : Option CaseStatus → Option CaseStatus → Option CaseStatus
worse none b = b
worse (some a) none = some a
worse (some a) (some b) = if ltb (severity a) (severity b) then some b else some a

-- the worst status that any case gives the test
abbrev pub worst : String → List CaseResult → Option CaseStatus
worst t [] = none
worst t (r ∷ rs) =
    let rest = worst t rs in if str_eq r.test_id t then worse (some r.status) rest else rest

worse_assoc : (a b c : Option CaseStatus) → worse (worse a b) c ≡ worse a (worse b c)
worse_assoc none b c = refl
worse_assoc (some a) none c = refl
worse_assoc (some a) (some b) none = elim (Bool-cases (ltb (severity a) (severity b))) [
  | inl less ↦ ground arith
  | inr more ↦ ground arith
]
worse_assoc (some a) (some b) (some c) = elim (Bool-cases (ltb (severity a) (severity b))) [
  | inl less ↦ elim (Bool-cases (ltb (severity b) (severity c))) [
    | inl less' ↦ ground arith
    | inr more' ↦ ground arith
  ]
  | inr more ↦ elim (Bool-cases (ltb (severity b) (severity c))) [
    | inl less' ↦ ground arith
    | inr more' ↦ ground arith
  ]
]

length-insert :
    (k : String) (v : CaseResult) (d : Dict CaseResult)
    → length (insert k v d) ≡ length d + (if is_none (lookup k d) then 1 else 0)
length-insert k v [] = omega arith
length-insert k v ((j, w) ∷ d) = let ih = length-insert k v d in ground arith

-- one case more
merge-step :
    (t : String) (r : CaseResult) (rs : List CaseResult) (d out : Dict CaseResult)
    → status_of (lookup t out) ≡ worse (status_of (lookup t (insert r.test_id r d))) (worst t rs)
    → worse (status_of (lookup r.test_id d)) (some r.status) ≡ some r.status
    → status_of (lookup t out) ≡ worse (status_of (lookup t d)) (worst t (r ∷ rs))
merge-step t r rs d out ih grows =
    let put = lookup-insert r.test_id t r d in
    elim (Bool-cases (str_eq r.test_id t)) [
      | inr other ↦ ground (arith, ih, put)
      | inl same ↦
          let name : r.test_id ≡ t = ground (arith, eq_iff r.test_id t) in
          let old : worse (status_of (lookup t d)) (some r.status) ≡ some r.status =
            ap (λ k. worse (status_of (lookup k d)) (some r.status)) (sym name) ∙ grows in
          let assoc = worse_assoc (status_of (lookup t d)) (some r.status) (worst t rs) in
          let now : status_of (lookup t (insert r.test_id r d)) ≡ some r.status =
            ground (arith, put) in
          let all_of : worst t (r ∷ rs) ≡ worse (some r.status) (worst t rs) = ground arith in
          ih
          ∙ ap (λ s. worse s (worst t rs)) (now ∙ sym old)
          ∙ assoc
          ∙ ap (worse (status_of (lookup t d))) (sym all_of)
    ]

worse-none : (a : Option CaseStatus) → worse a none ≡ a
worse-none none = refl
worse-none (some a) = refl

-- a case that is not worse than what is known changes nothing
merge-kept :
    (t : String) (r existing : CaseResult) (rs : List CaseResult) (d out : Dict CaseResult)
    → status_of (lookup t out) ≡ worse (status_of (lookup t d)) (worst t rs)
    → lookup r.test_id d ≡ some existing
    → ltb (severity existing.status) (severity r.status) ≡ false
    → status_of (lookup t out) ≡ worse (status_of (lookup t d)) (worst t (r ∷ rs))
merge-kept t r existing rs d out ih known more = elim (Bool-cases (str_eq r.test_id t)) [
  | inr other ↦ ground (arith, ih)
  | inl same ↦
      let name : r.test_id ≡ t = ground (arith, eq_iff r.test_id t) in
      let found : status_of (lookup t d) ≡ some existing.status =
        ap (λ k. status_of (lookup k d)) (sym name) ∙ ap status_of known in
      let assoc = worse_assoc (some existing.status) (some r.status) (worst t rs) in
      let kept : worse (some existing.status) (some r.status) ≡ some existing.status =
        ground (arith, more) in
      let all_of : worst t (r ∷ rs) ≡ worse (some r.status) (worst t rs) = ground arith in
      ih
      ∙ ap (λ s. worse s (worst t rs)) (found ∙ sym kept)
      ∙ assoc
      ∙ ap (worse (some existing.status)) (sym all_of)
      ∙ ap (λ s. worse s (worst t (r ∷ rs))) (sym found)
]

merge-worst :
    (t : String) (rs : List CaseResult) (d out : Dict CaseResult)
    → merge rs d ≡ ok out
    → status_of (lookup t out) ≡ worse (status_of (lookup t d)) (worst t rs)
unfolding merge
merge-worst t [] d out h =
    let same : d ≡ out = ground arith in
    ap (λ x. status_of (lookup t x)) (sym same) ∙ sym (worse-none (status_of (lookup t d)))
merge-worst t (r ∷ rs) d out h = elim (Option-cases (lookup r.test_id d)) [
  | inl new ↦ elim (Bool-cases (leb max_tests (length d))) [
    | inl full ↦ absurd (ground arith)
    | inr room ↦
        merge-step t r rs d out (merge-worst t rs (insert r.test_id r d) out (ground arith))
          (ap (λ o. worse (status_of o) (some r.status)) new)
  ]
  | inr (existing, known) ↦ elim (Bool-cases (ltb (severity existing.status) (severity r.status))) [
    | inl less ↦
        merge-step t r rs d out (merge-worst t rs (insert r.test_id r d) out (ground arith))
          (ap (λ o. worse (status_of o) (some r.status)) known ∙ ground arith)
    | inr more ↦ merge-kept t r existing rs d out (merge-worst t rs d out (ground arith)) known more
  ]
]

merge-length :
    (rs : List CaseResult) (d out : Dict CaseResult)
    → merge rs d ≡ ok out
    → length d ≤ max_tests
    → length out ≤ max_tests
unfolding merge
merge-length [] d out h few = ground (arith, few)
merge-length (r ∷ rs) d out h few =
    let longer = length-insert r.test_id r d in
    elim (Option-cases (lookup r.test_id d)) [
      | inl new ↦ elim (Bool-cases (leb max_tests (length d))) [
        | inl full ↦ absurd (ground arith)
        | inr room ↦
            merge-length rs (insert r.test_id r d) out (ground arith) (ground (arith, longer))
      ]
      | inr (existing, known) ↦
          elim (Bool-cases (ltb (severity existing.status) (severity r.status))) [
            | inl less ↦
                merge-length rs (insert r.test_id r d) out (ground arith)
                  (ground (arith, longer, few))
            | inr more ↦ merge-length rs d out (ground arith) few
          ]
    ]

-- If a report is accepted, then every test has the worst status that any
-- of its cases has, a test without a case has none, and there are at most the bounded number of tests.
pub parse_report-worst :
    (size : ℕ) (cases : List CaseResult) (results : Dict CaseResult) (t : String)
    → parse_report size (some (ok cases)) ≡ ok results
    → (status_of (lookup t results) ≡ worst t cases) × (length results ≤ max_tests)
unfolding parse_report
parse_report-worst size cases results t h =
    let merged : merge cases [] ≡ ok results = ground arith in
    (merge-worst t cases [] results merged, merge-length cases [] results merged (omega arith))
