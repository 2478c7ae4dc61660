-- ===== src/Agent/Request.antt =====
-- AgentLoop._request of src/autocontribute/agent_loop.py: one turn's request, sent until it is
-- answered, on the run's budget.
use autocontribute.Base.{
  ℕ, ◌+◌, ◌*◌, min, String, Option, none, Bool, true, false, not, ◌||◌, List, [], ◌∷◌, ltb, leb,
  if◌then◌else◌,
}
use autocontribute.Errors.{Limit, Error, budget_exhausted, ok, err}
use autocontribute.Pricing.Table.{openai, anthropic, Role, ModelSpec, ModelUsage}
use autocontribute.Budget.State.{RunBudget, Env, Reservation, seconds_left}
use autocontribute.Budget.Operations.{reserve, settle, record_failure, charge_for_retry}
use autocontribute.Agent.Retry.{RetryDecision, retry_decision}

pub data StopReason : Type 0 where
  turns budget time context no_tool_call malformed repeated_failure submit_limit : StopReason

-- what `provider.step` does: a turn with its usage and whether it stopped at its output limit, or
-- an error: ModelRequestError, ModelTimeoutError or another ModelError
pub data Answer : Type 0 where
  turned : ModelUsage → Bool → Answer
  request_error : Option ℕ → Option String → Option ℕ → Answer
  timeout_error model_error : Answer

-- What one attempt meets outside: the provider's answer to a request sent within a reservation,
-- and the surroundings of each call of the budget.
pub record Attempt : Type 0 where
  pub reserving : Env
  pub answered : Env
  pub charging : Env
  pub clock : ℕ
  pub jitter : ℕ
  pub answer : Reservation → Answer

-- what every attempt sends
pub record Request : Type 0 where
  pub scope : Role
  pub spec : ModelSpec
  pub input_tokens : ℕ

-- the variables of the loop
pub record Sending : Type 0 where
  pub cap : ℕ
  pub minimum : ℕ
  pub failures : ℕ
  pub enlarged : Bool

pub data Requested : Type 0 where
  turn : ModelUsage → Requested
  did_not_finish : StopReason → Requested
  loop_failure : Requested
  raised : Error → Requested

-- an attempt ends the request, or the loop goes round
pub data Progress : Type 0 where
  ends : Requested → Progress
  sends : Sending → Progress

-- _larger_output_cap
unfoldable pub larger_output_cap : ModelSpec → ℕ → ℕ
larger_output_cap spec cap = elim (spec.provider) [
  | openai ↦ min (2 * cap) spec.max_output_tokens
  | anthropic ↦ spec.max_output_tokens
]

-- the end of a request that the budget refused
abbrev pub refusal : Error → Requested
refusal (budget_exhausted Limit.time) = did_not_finish StopReason.time
refusal (budget_exhausted _) = did_not_finish StopReason.budget
refusal e = raised e

-- after a turn: it is returned, or was cut off and is sent again once with a larger limit
unfoldable pub after_turn :
    Request → Sending → Reservation → ModelUsage → Bool → Env → RunBudget → Progress × RunBudget
unfolding larger_output_cap
after_turn q p r usage cut_off env b =
    let (out, b') = settle env r usage b in
    let larger = larger_output_cap q.spec p.cap in
    elim out [
      | err e ↦ (ends (raised e), b')
      | ok _ ↦ (
        if not cut_off
            then ends (turn usage)
            else (if ltb r.output_tokens p.cap
                then ends (did_not_finish StopReason.budget)
                else (if p.enlarged || leb larger p.cap
                    then ends loop_failure
                    else sends (record p { cap = larger; minimum = p.cap + 1; enlarged = true }))),
        b',
      )
    ]

-- after a failure: it is recorded, and the request charged in full before it is sent again
unfoldable pub after_failure :
    Sending → Reservation → Attempt → Bool → RetryDecision → RunBudget → Progress × RunBudget
after_failure p r a is_timeout decision b =
    let (out, b1) = record_failure a.answered r is_timeout b in
    let (charged, b2) = charge_for_retry a.charging r b1 in
    elim out [
      | err e ↦ (ends (raised e), b1)
      | ok _ ↦
          if not decision.retry || leb (seconds_left b1 a.clock) decision.wait
          then (ends loop_failure, b1)
          else elim charged [
            | err e ↦ (ends (raised e), b2)
            | ok _ ↦ (sends (record p { failures = p.failures + 1 }), b2)
          ]
    ]

-- an error that is never sent again
unfoldable pub after_model_error : Reservation → Attempt → RunBudget → Progress × RunBudget
after_model_error r a b =
    let (out, b1) = record_failure a.answered r false b in
    (elim out [ err e ↦ ends (raised e) | ok _ ↦ ends loop_failure ], b1)

-- the rest of an attempt that was given an answer
unfoldable pub take_answer :
    Request → Sending → Reservation → Attempt → Answer → RunBudget → Progress × RunBudget
take_answer q p r a (turned usage cut_off) b = after_turn q p r usage cut_off a.answered b
take_answer q p r a (request_error status code retry_after) b =
    after_failure p r a false
      (retry_decision status code retry_after false (p.failures + 1) a.jitter) b
take_answer q p r a timeout_error b =
    after_failure p r a true (retry_decision none none none true (p.failures + 1) a.jitter) b
take_answer q p r a model_error b = after_model_error r a b

-- one round of the loop
unfoldable pub attempt : Request → Sending → Attempt → RunBudget → Progress × RunBudget
attempt q p a b =
    let (out, b') = reserve a.reserving q.scope q.spec q.input_tokens p.cap p.minimum b in
    elim out [ err e ↦ (ends (refusal e), b') | ok r ↦ take_answer q p r a (a.answer r) b' ]

abbrev pub min_turn_output_tokens : ℕ
min_turn_output_tokens = 4_000

-- the loop's variables before its first round
abbrev pub first_sending : ℕ → Sending
first_sending cap = record {
  cap = cap;
  minimum = min cap min_turn_output_tokens;
  failures = 0;
  enlarged = false;
}

abbrev pub rounds : Request → Sending → List Attempt → RunBudget → Progress × RunBudget
rounds q p [] b = (sends p, b)
rounds q p (a ∷ more) b =
    let (now, b') = attempt q p a b in
    elim now [ ends result ↦ (ends result, b') | sends p' ↦ rounds q p' more b' ]

-- AgentLoop._request, for the attempts that it may meet: the loop, from its start
unfoldable pub request : Request → ℕ → List Attempt → RunBudget → Progress × RunBudget
request q output_cap attempts b = rounds q (first_sending output_cap) attempts b
