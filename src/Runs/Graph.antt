-- ===== src/Runs/Graph.antt =====
-- Where a run can get to: every run goes through its approval before its pull request is open, and
-- can always be ended.
use autocontribute.Base.{◌≡◌, ◌≢◌, ◌⊎◌, inl, inr, refl, true, false, arith, List, [], ◌∷◌, take}
use autocontribute.Runs.Status.{
  RunStatus, queued, discovering, candidate_selected, eligibility_checked, setting_up, implementing,
  validating, critiquing, ready_for_approval, approved, submitting, pr_open, failed, cancelled,
  allows, is_terminal,
}

-- a run's history of statuses, each change one that `transition` allows
pub data History (s : RunStatus) : RunStatus → Type 0 where
  here : History s s
  moved : {t : RunStatus} → History s t → (u : RunStatus) → allows t u ≡ true → History s u

-- the statuses that a history went through, the latest first
abbrev pub statuses : {s t : RunStatus} → History s t → List RunStatus
statuses {s} here = s ∷ []
statuses (moved h u e) = u ∷ statuses h

head : {s t : RunStatus} (h : History s t) → (rest : List RunStatus) × (statuses h ≡ t ∷ rest)
head here = ([], refl)
head (moved h u e) = (statuses h, refl)

before_pr_open : (t : RunStatus) → allows t pr_open ≡ true → t ≡ submitting
before_pr_open t e = ground arith

before_submitting : (t : RunStatus) → allows t submitting ≡ true → t ≡ approved
before_submitting t e = ground arith

before_approved : (t : RunStatus) → allows t approved ≡ true → t ≡ ready_for_approval
before_approved t e = ground arith

to_approved :
    {t : RunStatus} (h : History queued t)
    → t ≡ approved
    → (rest : List RunStatus) × (statuses h ≡ approved ∷ ready_for_approval ∷ rest)
to_approved here e = absurd (cc)
to_approved (moved {t} h u ok) e =
    let (rest, same) = head h in
    let earlier : t ≡ ready_for_approval = before_approved t (rw e at ok) in (rest, cc)

to_submitting :
    {t : RunStatus} (h : History queued t)
    → t ≡ submitting
    → (rest : List RunStatus) × (statuses h ≡ submitting ∷ approved ∷ ready_for_approval ∷ rest)
to_submitting here e = absurd (cc)
to_submitting (moved {t} h u ok) e =
    let (rest, same) = to_approved h (before_submitting t (rw e at ok)) in (rest, cc)

-- However a run came to have its pull request open, it was submitted in the step before, approved
-- before that and ready for approval before that: there is no other way.
pub pr_open-statuses :
    (h : History queued pr_open)
    → take 4 (statuses h) ≡ pr_open ∷ submitting ∷ approved ∷ ready_for_approval ∷ []
pr_open-statuses (moved {t} h u ok) =
    let (rest, same) = to_submitting h (before_pr_open t ok) in rw same

-- From a terminal status no change is allowed, and from any other there is one that ends the run
-- without opening a pull request.
pub always_endable :
    (s : RunStatus)
    → ((is_terminal s ≡ true) × ((t : RunStatus) → allows s t ≡ false))
      ⊎ ((t : RunStatus) × (is_terminal s ≡ false)
          × (allows s t ≡ true)
          × (is_terminal t ≡ true)
          × (t ≢ pr_open))
always_endable queued = inr (failed, refl, refl, refl, λ e. cc)
always_endable ready_for_approval = inr (cancelled, refl, refl, refl, λ e. cc)
always_endable approved = inr (cancelled, refl, refl, refl, λ e. cc)
always_endable discovering = inr (failed, refl, refl, refl, λ e. cc)
always_endable candidate_selected = inr (failed, refl, refl, refl, λ e. cc)
always_endable eligibility_checked = inr (failed, refl, refl, refl, λ e. cc)
always_endable setting_up = inr (failed, refl, refl, refl, λ e. cc)
always_endable implementing = inr (failed, refl, refl, refl, λ e. cc)
always_endable validating = inr (failed, refl, refl, refl, λ e. cc)
always_endable critiquing = inr (failed, refl, refl, refl, λ e. cc)
always_endable submitting = inr (failed, refl, refl, refl, λ e. cc)
always_endable _ = inl (refl, λ t. refl)
