-- ===== src/Agent/Rounds.antt =====
-- Which fixes a round of submits accepts (Solver of src/autocontribute/agent_loop.py), and that it
-- never goes on without a way to an accepted fix.
use autocontribute.Base.{
  ◌+◌, ◌-◌, ◌≤◌, ◌<◌, String, none, some, Bool, true, false, List, [], ◌∷◌, ◌≡◌, ◌⊎◌, inl, inr,
  arith, str_eq, eq_iff, Option-cases, Bool-cases,
}
use autocontribute.Errors.{ok}
use autocontribute.Agent.Submit.{
  CheckReport, AgentSubmission, fixed, skip, Findings, ReplyText, report_passed, fix_confirmed,
  accept, continue, Solver, new_round, max_fix_submits, is_unchanged, confirm, check_fix, on_submit,
  submitted_fix, outcome,
}

-- the submits of a round that the loop went on after, with what the checker found at each
pub data Round : Solver → List CheckReport → Type 0 where
  opens : Round new_round []
  goes_on :
      {s : Solver} {checked : List CheckReport}
      → Round s checked
      → (found : Findings) (submission : AgentSubmission) (last_turn : Bool) (text : ReplyText)
      → (on_submit found submission last_turn s).0 ≡ continue text
      → Round (on_submit found submission last_turn s).1 (found.check ∷ checked)

-- A report that stands as passed did pass, at most three submits went before, and where nothing has
-- passed two more are left.
pub record IsOpen (s : Solver) : Type 0 where
  pub bounded : s.submits < max_fix_submits
  pub enough : s.passed ≡ none → s.submits + 2 ≤ max_fix_submits
  pub honest : (r : CheckReport) → s.passed ≡ some r → r.passed ≡ true

pub continued-IsOpen :
    (found : Findings) (submission : AgentSubmission) (last_turn : Bool) (text : ReplyText)
    (s : Solver)
    → IsOpen s
    → (on_submit found submission last_turn s).0 ≡ continue text
    → IsOpen (on_submit found submission last_turn s).1
unfolding on_submit confirm check_fix
continued-IsOpen found (skip reason) last_turn text s inv h = absurd (cc)
continued-IsOpen found (fixed body) last_turn text s inv h = record {
  bounded = ground (arith, inv.bounded);
  enough = λ e. ground (arith, inv.bounded);
  honest = λ r e. ground (arith, inv.honest r);
}

pub new_round-IsOpen : IsOpen new_round
new_round-IsOpen = record {
  bounded = omega arith;
  enough = λ e. omega arith;
  honest = λ r e. absurd (cc);
}

Round-IsOpen : {s : Solver} {checked : List CheckReport} → Round s checked → IsOpen s
Round-IsOpen opens = new_round-IsOpen
Round-IsOpen (goes_on {s} r found submission last_turn text h) =
    continued-IsOpen found submission last_turn text s (Round-IsOpen r) h

abbrev pub IsHandedOver : Findings → String → Bool → Solver → CheckReport → Type 0
IsHandedOver found body last_turn s report =
    (outcome (fixed body) (on_submit found (fixed body) last_turn s).1
      ≡ ok (submitted_fix (fixed body) report))
    × (report.passed ≡ true)
    × (((found.diff_sha256 ≡ report.diff_sha256) × (found.text_problem ≡ none))
        ⊎ ((report ≡ found.check) × (last_turn ≡ true)))

pub open-IsHandedOver :
    (s : Solver) (found : Findings) (body : String) (last_turn : Bool) (text : ReplyText)
    → IsOpen s
    → (on_submit found (fixed body) last_turn s).0 ≡ accept text
    → (report : CheckReport) × IsHandedOver found body last_turn s report
unfolding on_submit confirm check_fix outcome is_unchanged
open-IsHandedOver s found body last_turn text inv h = elim (Option-cases (s.passed)) [
  | inl fresh ↦ (found.check, (ground arith, ground arith, inr (ground arith, ground arith)))
  | inr (report, e) ↦ elim (Bool-cases (str_eq found.diff_sha256 report.diff_sha256)) [
    | inl same ↦ (
      report,
      (
        ground arith,
        inv.honest report e,
        inl ((eq_iff found.diff_sha256 report.diff_sha256).0 same, ground arith),
      ),
    )
    | inr different ↦ (found.check, (ground arith, ground arith, inr (ground arith, ground arith)))
  ]
]

-- A fix that a round accepts has passed the checks: the outcome carries a report that passed, and
-- either the workspace's diff is still the one of that report and the pull request's text can be
-- published, or the report is of this very submit, on the last turn.
pub accepted_fix_passed :
    (s : Solver) (checked : List CheckReport) (found : Findings) (body : String) (last_turn : Bool)
    (text : ReplyText)
    → Round s checked
    → (on_submit found (fixed body) last_turn s).0 ≡ accept text
    → (report : CheckReport) × IsHandedOver found body last_turn s report
accepted_fix_passed s checked found body last_turn text r h =
    open-IsHandedOver s found body last_turn text (Round-IsOpen r) h

-- what a checker finds that passes the workspace's diff
abbrev passing : String → Findings
passing digest = record {
  diff_sha256 = digest;
  check = record { passed = true; diff_sha256 = digest; text = "" };
  text_problem = none;
}

-- When a submit is answered with another try, the tries that are left can still get the fix
-- accepted: there are findings of the checker with which the next submit is accepted, or the next
-- is answered with another try and the one after it is accepted.
pub never_futile :
    (s : Solver) (checked : List CheckReport) (body : String)
    → Round s checked
    → (found : Findings) × (later : Findings) × (text : ReplyText) × (text' : ReplyText)
      × (((on_submit found (fixed body) false s).0 ≡ accept text)
          ⊎ (((on_submit found (fixed body) false s).0 ≡ continue text)
              × ((on_submit later (fixed body) false (on_submit found (fixed body) false s).1).0
                  ≡ accept text')))
unfolding on_submit confirm check_fix is_unchanged
never_futile s checked body r = elim (Option-cases (s.passed)) [
  | inl fresh ↦ (
    passing "",
    passing "",
    report_passed "" (max_fix_submits - (s.submits + 1)),
    fix_confirmed,
    inr (
      ground (arith, (Round-IsOpen r).enough fresh),
      ground (arith, (Round-IsOpen r).enough fresh),
    ),
  )
  | inr (report, e) ↦ (
    passing report.diff_sha256,
    passing "",
    fix_confirmed,
    fix_confirmed,
    inl (ground (arith, eq_iff report.diff_sha256 report.diff_sha256)),
  )
]
