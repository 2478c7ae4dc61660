-- ===== src/Agent/Attempts.antt =====
-- How often AgentLoop._request of src/autocontribute/agent_loop.py goes round its loop.
use autocontribute.Base.{
  ℕ, ◌+◌, ◌≤◌, ◌<◌, none, Bool, true, false, List, [], ◌∷◌, length, ◌≡◌, ◌⊎◌, inl, inr, refl, arith,
  if◌then◌else◌, ap, ◌∙◌,
}
use autocontribute.Errors.{Result-cases}
use autocontribute.Pricing.Table.{ModelUsage}
use autocontribute.Budget.State.{RunBudget, Env, Reservation}
use autocontribute.Budget.Operations.{reserve}
use autocontribute.Agent.Retry.{RetryDecision, retry_decision_when, max_attempts}
use autocontribute.Agent.Request.{
  Answer, turned, request_error, timeout_error, model_error, Attempt, Request, Sending, Requested,
  Progress, ends, sends, after_turn, after_failure, after_model_error, take_answer, attempt, rounds,
  first_sending, request,
}

-- how often the loop has gone round
spent_rounds : Sending → ℕ
spent_rounds p = p.failures + (if p.enlarged then 1 else 0)

-- The loop goes round once more, for another failure or the one enlargement.
record IsNext (p p' : Sending) : Type 0 where
  counted : spent_rounds p' ≡ spent_rounds p + 1
  tried : (p'.failures ≤ p.failures) ⊎ (p'.failures < max_attempts)

after_failure-IsNext :
    (p p' : Sending) (r : Reservation) (a : Attempt) (is_timeout : Bool) (decision : RetryDecision)
    (b : RunBudget)
    → (decision.retry ≡ true → p.failures + 1 < max_attempts)
    → (after_failure p r a is_timeout decision b).0 ≡ sends p'
    → IsNext p p'
unfolding after_failure spent_rounds
after_failure-IsNext p p' r a is_timeout decision b limit h = record {
  counted = ground arith;
  tried = ground (arith, limit);
}

after_turn-IsNext :
    (q : Request) (p p' : Sending) (r : Reservation) (usage : ModelUsage) (cut_off : Bool)
    (env : Env) (b : RunBudget)
    → (after_turn q p r usage cut_off env b).0 ≡ sends p'
    → IsNext p p'
unfolding after_turn spent_rounds
after_turn-IsNext q p p' r usage cut_off env b h = record {
  counted = ground arith;
  tried = ground arith;
}

take_answer-IsNext :
    (q : Request) (p p' : Sending) (r : Reservation) (a : Attempt) (answer : Answer) (b : RunBudget)
    → (take_answer q p r a answer b).0 ≡ sends p'
    → IsNext p p'
unfolding take_answer after_model_error
take_answer-IsNext q p p' r a (turned usage cut_off) b h =
    after_turn-IsNext q p p' r usage cut_off a.answered b h
take_answer-IsNext q p p' r a (request_error status code retry_after) b h =
    after_failure-IsNext p p' r a false _ b
      (λ e. ((retry_decision_when status code retry_after false (p.failures + 1) a.jitter).0 e).2) h
take_answer-IsNext q p p' r a timeout_error b h =
    after_failure-IsNext p p' r a true _ b
      (λ e. ((retry_decision_when none none none true (p.failures + 1) a.jitter).0 e).2) h
take_answer-IsNext q p p' r a model_error b h = absurd (ground arith)

attempt-IsNext :
    (q : Request) (p p' : Sending) (a : Attempt) (b : RunBudget)
    → (attempt q p a b).0 ≡ sends p'
    → IsNext p p'
unfolding attempt
attempt-IsNext q p p' a b h =
    let (out, b') = reserve a.reserving q.scope q.spec q.input_tokens p.cap p.minimum b in
    elim (Result-cases out) [
      | inr (e, refused) ↦ absurd (ground arith)
      | inl (r, reserved) ↦ take_answer-IsNext q p p' r a (a.answer r) b' (ground arith)
    ]

pub Progress-cases :
    (g : Progress) → ((result : Requested) × (g ≡ ends result)) ⊎ ((p : Sending) × (g ≡ sends p))
Progress-cases (ends result) = inl (result, refl)
Progress-cases (sends p) = inr (p, refl)

pub rounds-again :
    (q : Request) (p p' : Sending) (a : Attempt) (more : List Attempt) (b : RunBudget)
    → (attempt q p a b).0 ≡ sends p'
    → rounds q p (a ∷ more) b ≡ rounds q p' more ((attempt q p a b).1)
rounds-again q p p' a more b again = ground arith

pub rounds-over :
    (q : Request) (p : Sending) (a : Attempt) (more : List Attempt) (b : RunBudget)
    (result : Requested)
    → (attempt q p a b).0 ≡ ends result
    → rounds q p (a ∷ more) b ≡ (ends result, (attempt q p a b).1)
rounds-over q p a more b result over = ground arith

rounds-ends :
    (q : Request) (p : Sending) (attempts : List Attempt) (b : RunBudget)
    → p.failures < max_attempts
    → 4 ≤ spent_rounds p + length attempts
    → (result : Requested) × ((rounds q p attempts b).0 ≡ ends result)
unfolding spent_rounds
rounds-ends q p [] b few enough = absurd (ground arith)
rounds-ends q p (a ∷ more) b few enough = elim (Progress-cases ((attempt q p a b).0)) [
  | inl (result, over) ↦ (result, ap (λ x. x.0) (rounds-over q p a more b result over))
  | inr (p', again) ↦
      let step = attempt-IsNext q p p' a b again in
      let fewer : p'.failures < max_attempts = elim (step.tried) [
        | inl le ↦ omega arith
        | inr lt ↦ lt
      ] in
      let counted : 4 ≤ spent_rounds p' + length more = omega (arith, step.counted) in
      let (result, over) = rounds-ends q p' more ((attempt q p a b).1) fewer counted in
      (result, ap (λ x. x.0) (rounds-again q p p' a more b again) ∙ over)
]

-- One request never takes more than four attempts: given four answers of the provider, whatever they
-- are, `_request` returns a turn, a stop or a failure, or raises.
pub request-ends :
    (q : Request) (output_cap : ℕ) (attempts : List Attempt) (b : RunBudget)
    → 4 ≤ length attempts
    → (result : Requested) × ((request q output_cap attempts b).0 ≡ ends result)
unfolding request spent_rounds
request-ends q output_cap attempts b enough =
    rounds-ends q (first_sending output_cap) attempts b (omega arith) (omega (arith, enough))
