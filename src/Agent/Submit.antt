-- ===== src/Agent/Submit.antt =====
-- Solver of src/autocontribute/agent_loop.py: the answer to each submit of a round. What the checker
-- finds at a submit is an argument; a reply's text is a value that says which text it is.
use autocontribute.Base.{
  ℕ, ◌+◌, ◌-◌, String, Option, none, some, Bool, false, str_eq, ltb, ◌==◌, if◌then◌else◌,
}
use autocontribute.Errors.{state_error, Result, ok, err}

pub record CheckReport : Type 0 where
  pub passed : Bool
  pub diff_sha256 : String
  pub text : String

-- AgentSubmission: a fix with its pull request's texts as one, or a skip with its reason as stripped
pub data AgentSubmission : Type 0 where
  fixed : String → AgentSubmission
  skip : String → AgentSubmission

-- FixChecker at one submit: `diff_sha256()`, `check(submission)` and `check_text(submission)`
pub record Findings : Type 0 where
  pub diff_sha256 : String
  pub check : CheckReport
  pub text_problem : Option String

pub data ReplyText : Type 0 where
  skip_recorded fix_confirmed attempt_over : ReplyText
  only_report : String → ReplyText
  unpublishable report_passed report_failed : String → ℕ → ReplyText

pub data SubmitReply : Type 0 where
  accept continue stop : ReplyText → SubmitReply

pub record Solver : Type 0 where
  pub submits : ℕ
  pub passed : Option CheckReport
  pub accepted : Option CheckReport

-- a round at its start: `__init__`, and `address_blockers` again
abbrev pub new_round : Solver
new_round = record { submits = 0; passed = none; accepted = none }

abbrev pub max_fix_submits : ℕ
max_fix_submits = 4

-- the current diff is the one that passed
unfoldable pub is_unchanged : Findings → Option CheckReport → Bool
is_unchanged found none = false
is_unchanged found (some passed) = str_eq found.diff_sha256 passed.diff_sha256

-- the confirming submit of an unchanged diff
unfoldable pub confirm : Findings → ℕ → Solver → SubmitReply × Solver
confirm found left s = elim (found.text_problem) [
  | none ↦ (accept fix_confirmed, record s { accepted = s.passed })
  | some problem ↦ (
    if left == 0 then stop (unpublishable problem 0) else continue (unpublishable problem left),
    s,
  )
]

-- a submit whose diff is checked
unfoldable pub check_fix : Findings → Bool → ℕ → Solver → SubmitReply × Solver
check_fix found last_turn left s =
    let report = found.check in
    if report.passed
    then (let s' = record s { passed = some report } in
        if last_turn
        then (accept (only_report report.text), record s' { accepted = some report })
        else (continue (report_passed report.text left), s'))
    else (let s' = record s { passed = none } in
        (
          if ltb left 2
              then stop (report_failed report.text 0)
              else continue (report_failed report.text left),
          s',
        ))

-- Solver._on_submit
unfoldable pub on_submit : Findings → AgentSubmission → Bool → Solver → SubmitReply × Solver
unfolding is_unchanged confirm check_fix
on_submit found (skip reason) last_turn s = (accept skip_recorded, s)
on_submit found (fixed text) last_turn s =
    let s' = record s { submits = s.submits + 1 } in
    let left = max_fix_submits - s'.submits in
    if is_unchanged found s.passed
    then confirm found left s'
    else (if left == 0 then (stop attempt_over, s') else check_fix found last_turn left s')

pub data SolverOutcome : Type 0 where
  submitted_fix : AgentSubmission → CheckReport → SolverOutcome
  skipped_issue : String → SolverOutcome

-- Solver._outcome of a loop that finished with an accepted submission
unfoldable pub outcome : AgentSubmission → Solver → Result SolverOutcome
outcome (skip reason) s = ok (skipped_issue reason)
outcome (fixed text) s = elim (s.accepted) [
  | none ↦ err state_error
  | some report ↦ ok (submitted_fix (fixed text) report)
]
