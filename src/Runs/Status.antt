-- ===== src/Runs/Status.antt =====
-- RunStatus, TERMINAL_STATUSES and ALLOWED_TRANSITIONS of src/autocontribute/domain.py.
use autocontribute.Base.{ℕ, Bool, List, [], ◌∷◌, ◌==◌, any}

pub data RunStatus : Type 0 where
  queued discovering candidate_selected eligibility_checked setting_up implementing validating
        critiquing ready_for_approval approved submitting pr_open skipped rejected failed
        cancelled :
      RunStatus

-- the status's place in the enumeration, by which two are compared
abbrev pub index : RunStatus → ℕ
index queued = 0
index discovering = 1
index candidate_selected = 2
index eligibility_checked = 3
index setting_up = 4
index implementing = 5
index validating = 6
index critiquing = 7
index ready_for_approval = 8
index approved = 9
index submitting = 10
index pr_open = 11
index skipped = 12
index rejected = 13
index failed = 14
index cancelled = 15

abbrev pub status_eq : RunStatus → RunStatus → Bool
status_eq s t = index s == index t

abbrev pub contains : List RunStatus → RunStatus → Bool
contains statuses s = any (status_eq s) statuses

abbrev pub terminal_statuses : List RunStatus
terminal_statuses = pr_open ∷ skipped ∷ rejected ∷ failed ∷ cancelled ∷ []

-- `ALLOWED_TRANSITIONS.get(status, set())`
abbrev pub allowed_transitions : RunStatus → List RunStatus
allowed_transitions queued = discovering ∷ cancelled ∷ failed ∷ []
allowed_transitions discovering = candidate_selected ∷ skipped ∷ failed ∷ []
allowed_transitions candidate_selected = eligibility_checked ∷ skipped ∷ failed ∷ []
allowed_transitions eligibility_checked = setting_up ∷ skipped ∷ failed ∷ []
allowed_transitions setting_up = implementing ∷ skipped ∷ failed ∷ []
allowed_transitions implementing = validating ∷ skipped ∷ rejected ∷ failed ∷ []
allowed_transitions validating = critiquing ∷ implementing ∷ rejected ∷ failed ∷ []
allowed_transitions critiquing = implementing ∷ ready_for_approval ∷ rejected ∷ failed ∷ []
allowed_transitions ready_for_approval = approved ∷ cancelled ∷ []
allowed_transitions approved = submitting ∷ cancelled ∷ []
allowed_transitions submitting = pr_open ∷ ready_for_approval ∷ failed ∷ []
allowed_transitions _ = []

abbrev pub allows : RunStatus → RunStatus → Bool
allows s t = contains (allowed_transitions s) t

abbrev pub is_terminal : RunStatus → Bool
is_terminal s = contains terminal_statuses s
