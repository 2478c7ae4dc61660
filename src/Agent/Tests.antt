-- ===== src/Agent/Tests.antt =====
-- One fix submitted and confirmed, one request that is sent twice, and the theorems at their states.
use autocontribute.Base.{◌≤◌, ◌≡◌, ◌⊎◌, refl, none, some, true, false, List, [], ◌∷◌, arith}
use autocontribute.Errors.{ok}
use autocontribute.Pricing.Table.{ModelUsage, claude_haiku_5_5, triage}
use autocontribute.Pricing.Bounds.{IsPriced, tier_rates, cost, upper_bound_cost}
use autocontribute.Budget.State.{Manifest, RunBudget, Env, seconds_left, cost_left}
use autocontribute.Budget.Operations.{
  nothing_spent, create, reserve, grant, affordable, settle, require_owned, record_failure,
  charge_for_retry,
}
use autocontribute.Budget.Trace.{IsFresh}
use autocontribute.Agent.Retry.{retry_decision, is_provider_error, is_transient}
use autocontribute.Agent.Submit.{
  CheckReport, fixed, Findings, ReplyText, accept, continue, fix_confirmed, report_passed, Solver,
  new_round, on_submit, is_unchanged, confirm, check_fix, outcome, submitted_fix,
}
use autocontribute.Agent.Rounds.{
  Round, opens, goes_on, IsHandedOver, accepted_fix_passed, never_futile,
}
use autocontribute.Agent.Request.{
  turned, request_error, Attempt, Request, Requested, turn, ends, request, attempt, take_answer,
  after_turn, after_failure,
}
use autocontribute.Agent.Attempts.{request-ends}
use autocontribute.Agent.Turns.{
  submit, LoopOutcome, finished, Exchange, answer, run_call, close_turn, run_turn, run_turns,
  new_loop,
}
use autocontribute.Agent.Fixes.{finished_fix_passed}
use autocontribute.Agent.Limits.{IsWithin}
use autocontribute.Agent.Ending.{run_turns-ends}

-- HTTP 429, with a wait of 30 seconds asked for
overloaded :
    retry_decision (some 429) none (some 30_000_000) false 1 500_000
    ≡ record { retry = true; wait = 33_750_000 }
unfolding retry_decision is_provider_error is_transient
overloaded = refl

out_of_quota : (retry_decision (some 429) (some "insufficient_quota") none false 1 0).retry ≡ false
unfolding retry_decision is_provider_error is_transient
out_of_quota = refl

-- The second wait is three times the first.
backed_off : (retry_decision none none none true 2 0).wait ≡ 30_000_000
unfolding retry_decision is_provider_error is_transient
backed_off = refl

retried : (retry_decision (some 429) none (some 30_000_000) false 1 500_000).retry ≡ true
unfolding retry_decision is_provider_error is_transient
retried = refl

abbrev good_report : CheckReport
good_report = record { passed = true; diff_sha256 = "d1"; text = "all checks" }

abbrev good : Findings
good = record { diff_sha256 = "d1"; check = good_report; text_problem = none }

abbrev after_check : Solver
after_check = record { submits = 1; passed = some good_report; accepted = none }

checked_once :
    on_submit good (fixed "fix") false new_round
    ≡ (continue (report_passed "all checks" 3), after_check)
unfolding on_submit is_unchanged confirm check_fix
checked_once = refl

confirmed : on_submit good (fixed "fix") false after_check ≡ (
  accept fix_confirmed,
  record { submits = 2; passed = some good_report; accepted = some good_report },
)
unfolding on_submit is_unchanged confirm check_fix
confirmed = refl

one_check : Round after_check (good_report ∷ [])
unfolding on_submit is_unchanged confirm check_fix
one_check = goes_on opens good (fixed "fix") false (report_passed "all checks" 3) refl

accepts : (on_submit good (fixed "fix") false after_check).0 ≡ accept fix_confirmed
unfolding on_submit is_unchanged confirm check_fix
accepts = refl

accepted_fix_passed_example :
    (report : CheckReport) × IsHandedOver good "fix" false after_check report
accepted_fix_passed_example =
    accepted_fix_passed after_check (good_report ∷ []) good "fix" false fix_confirmed one_check
      accepts

never_futile_example :
    (found : Findings) × (later : Findings) × (text : ReplyText) × (text' : ReplyText)
    × (((on_submit found (fixed "fix") false after_check).0 ≡ accept text)
        ⊎ (((on_submit found (fixed "fix") false after_check).0 ≡ continue text)
            × ((on_submit later
                  (fixed "fix")
                  false
                  (on_submit found (fixed "fix") false after_check).1).0
                ≡ accept text')))
never_futile_example = never_futile after_check (good_report ∷ []) "fix" one_check

abbrev small_usage : ModelUsage
small_usage = record {
  input_tokens = 0;
  cached_input_tokens = 0;
  cache_write_tokens = 0;
  output_tokens = 0;
  reasoning_tokens = 0;
  total_tokens = 0;
}

abbrev submits : Exchange
submits = record {
  last_turn = false;
  too_long = false;
  requested = turn small_usage;
  calls = submit (fixed "fix") good ∷ [];
}

-- a solver's loop that submits a fix and confirms it
finishes :
    (run_turns 100 (submits ∷ submits ∷ []) (new_loop new_round)).0 ≡ some (finished (fixed "fix"))
unfolding run_turn answer run_call close_turn on_submit is_unchanged confirm check_fix
finishes = refl

finished_fix_passed_example :
    (report : CheckReport) × (outcome
        (fixed "fix")
        (run_turns 100 (submits ∷ submits ∷ []) (new_loop new_round)).1.solver
      ≡ ok (submitted_fix (fixed "fix") report))
    × (report.passed ≡ true)
finished_fix_passed_example =
    finished_fix_passed 100 (submits ∷ submits ∷ []) (new_loop new_round) "fix" refl finishes

new_loop-IsWithin : IsWithin (new_loop new_round)
new_loop-IsWithin = omega arith

abbrev chat : Exchange
chat = record submits { calls = [] }

run_turns-ends_example :
    ((run_turns 1 (chat ∷ chat ∷ []) (new_loop new_round)).1.turns ≤ 1)
    × ((o : LoopOutcome) × ((run_turns 1 (chat ∷ chat ∷ []) (new_loop new_round)).0 ≡ some o))
run_turns-ends_example =
    run_turns-ends 1 (chat ∷ chat ∷ []) (new_loop new_round) (omega arith) new_loop-IsWithin
      (omega arith)

abbrev blank : Manifest
blank = record {
  model_calls = 0;
  model_input_tokens = 0;
  model_output_tokens = 0;
  model_cost_usd = 0;
  model_time = 0;
  model_reservation = none;
}

abbrev fresh_budget : RunBudget
fresh_budget = record {
  manifest = blank;
  max_cost_nano = 10_000_000_000;
  max_model_calls = 200;
  deadline = 5_400_000_007;
  spent = nothing_spent;
  saved = blank;
  events = [];
}

created : create blank 10_000_000_000 200 90 7 ≡ ok fresh_budget
unfolding create
created = refl

abbrev calm : Env
calm = record {
  breaker_clear = true;
  lease_owned = true;
  saves = true;
  artifact_written = true;
  now = 10_000_000;
  later = 10_000_005;
  utc_now = 77;
}

abbrev busy : Attempt
busy = record {
  reserving = calm;
  answered = calm;
  charging = calm;
  clock = 10_000_000;
  jitter = 0;
  answer = λ r. request_error (some 429) none none;
}

abbrev answered : Attempt
answered = record busy { answer = λ r. turned small_usage false }

abbrev classify : Request
classify = record { scope = triage; spec = claude_haiku_5_5; input_tokens = 2_000 }

abbrev four : List Attempt
four = busy ∷ answered ∷ busy ∷ busy ∷ []

second_answer : (request classify 4_000 four fresh_budget).0 ≡ ends (turn small_usage)
unfolding request attempt take_answer after_turn after_failure reserve grant affordable cost_left
    upper_bound_cost tier_rates seconds_left settle require_owned cost record_failure
    charge_for_retry retry_decision is_provider_error is_transient
second_answer = refl

request-ends_example :
    (result : Requested) × ((request classify 4_000 four fresh_budget).0 ≡ ends result)
request-ends_example = request-ends classify 4_000 four fresh_budget (omega arith)

haiku-IsPriced : IsPriced claude_haiku_5_5
haiku-IsPriced = omega arith

blank-IsFresh : IsFresh blank
blank-IsFresh = ground arith
