-- ===== src/Budget/Operations.antt =====
-- The methods of RunBudget. A method returns its result with the budget as it stands afterwards,
-- after a raise too: what was written in memory before a failed save stays written.
use autocontribute.Base.{
  ℕ, ◌+◌, ◌-◌, ◌/◌, ◌*◌, min, Option, none, some, [], ◌∷◌, ◌++◌, Bool, true, false, not, ◌||◌, ltb,
  leb, ◌==◌, if◌then◌else◌, is_none,
}
use autocontribute.Errors.{
  calls, time, cost as cost_limit, value_error, policy_error, state_error, artifact_sync_error,
  budget_exhausted, Result, ok, err, ◌>>◌, raise_if,
}
use autocontribute.Pricing.Table.{Role, ModelSpec, ModelUsage}
use autocontribute.Pricing.Bounds.{tier_rates, cost, upper_bound_cost}
use autocontribute.Budget.State.{
  Pending, Manifest, Event, Spent, started, completed, budget_exceeded, failed, timed_out,
  retry_scheduled, failure_charged, charge, RunBudget, Env, Reservation, max_cost_usd, seconds_left,
  cost_left,
}

abbrev pub second : ℕ
second = 1_000_000

abbrev pub nothing_spent : Spent
nothing_spent = record { by_setup = 0; by_agent = 0; by_critic = 0; by_triage = 0 }

-- RunBudget.__init__, on the manifest as it was loaded: ValueError unless every limit is positive.
unfoldable pub create : Manifest → ℕ → ℕ → ℕ → ℕ → Result RunBudget
create manifest max_cost_nano max_model_calls max_run_minutes clock = do
  raise_if (ltb max_cost_nano 1 || (ltb max_model_calls 1 || ltb max_run_minutes 1)) value_error
  ok (record {
    manifest = manifest;
    max_cost_nano = max_cost_nano;
    max_model_calls = max_model_calls;
    deadline = clock + max_run_minutes * 60 * second;
    spent = nothing_spent;
    saved = manifest;
    events = [];
  })

-- MAX_TURN_SECONDS of providers.py
abbrev pub max_turn_time : ℕ
max_turn_time = 600_000_000

-- RunBudget.command_timeout: the limit is in seconds, cut to the whole seconds left.
unfoldable pub command_timeout : RunBudget → ℕ → ℕ → ℕ
unfolding seconds_left
command_timeout b clock limit_seconds = min limit_seconds (seconds_left b clock / second)

-- `self._store.save(manifest, event=...)`: the row and the ledger change together or not at all. Once
-- they are committed the call still raises when the manifest's file cannot be written.
abbrev pub save {ℓ} : {A : Type ℓ} → Env → Event → RunBudget → A → Result A × RunBudget
save env event b value =
    if env.saves
    then (
      if env.artifact_written then ok value else err artifact_sync_error,
      record b { saved = b.manifest; events = b.events ++ event ∷ [] },
    )
    else (err state_error, b)

-- The output tokens that the scope can still pay for after the worst-case input. Where the input
-- alone costs more than is left the source's quotient is negative, and it is 0 here: both are
-- below `min_output_tokens`, which is at least 1.
unfoldable pub affordable : RunBudget → Role → ModelSpec → ℕ → ℕ
affordable b scope spec input_tokens =
    (cost_left scope b - upper_bound_cost spec input_tokens 0)
    / (tier_rates spec input_tokens).output

-- The part of `reserve` that reads only: each check in turn, then the output limit.
unfoldable pub grant : Env → Role → ModelSpec → ℕ → ℕ → ℕ → RunBudget → Result ℕ
grant env scope spec input_tokens max_output_tokens min_output_tokens b = do
  raise_if
      (ltb input_tokens 1 || (ltb min_output_tokens 1 || ltb max_output_tokens min_output_tokens))
      value_error
  raise_if (ltb spec.max_output_tokens max_output_tokens) value_error
  raise_if (not env.breaker_clear) state_error
  raise_if (not env.lease_owned) state_error
  raise_if (not (is_none b.manifest.model_reservation)) policy_error
  raise_if (leb b.max_model_calls b.manifest.model_calls) (budget_exhausted calls)
  raise_if (ltb (seconds_left b env.now) second) (budget_exhausted time)
  let output_tokens = min max_output_tokens (affordable b scope spec input_tokens)
  raise_if (ltb output_tokens min_output_tokens) (budget_exhausted cost_limit)
  ok output_tokens

-- the reservation that `reserve` writes into the manifest
abbrev pub pending_for : Env → Role → ModelSpec → ℕ → ℕ → RunBudget → Pending
pending_for env scope spec input_tokens output_tokens b = record {
  call = b.manifest.model_calls + 1;
  role = scope;
  input_tokens = input_tokens;
  output_tokens = output_tokens;
  cost_usd = upper_bound_cost spec input_tokens output_tokens;
  timeout = min max_turn_time (seconds_left b env.now);
  started_at = env.utc_now;
}

abbrev pub with_pending : Pending → RunBudget → RunBudget
with_pending r b = record b {
  manifest = record (b.manifest) {
    model_calls = b.manifest.model_calls + 1;
    model_reservation = some r;
  };
}

abbrev pub issued : Env → ModelSpec → Pending → Reservation
issued env spec r = record {
  call = r.call;
  scope = r.role;
  spec = spec;
  input_tokens = r.input_tokens;
  output_tokens = r.output_tokens;
  cost_usd = r.cost_usd;
  timeout = r.timeout;
  started = env.later;
}

-- RunBudget.reserve
unfoldable pub reserve :
    Env → Role → ModelSpec → ℕ → ℕ → ℕ → RunBudget → Result Reservation × RunBudget
reserve env scope spec input_tokens max_output_tokens min_output_tokens b =
    elim (grant env scope spec input_tokens max_output_tokens min_output_tokens b) [
      | err e ↦ (err e, b)
      | ok output_tokens ↦
          let r = pending_for env scope spec input_tokens output_tokens b in
          save env started (with_pending r b) (issued env spec r)
    ]

-- RunBudget._require_pending, then `assert_lease`
abbrev is_pending : ℕ → Option Pending → Bool
is_pending call none = false
is_pending call (some r) = r.call == call

unfoldable pub require_owned : Env → Reservation → RunBudget → Result (Unit {0})
require_owned env reservation b = do
  raise_if (not (is_pending reservation.call b.manifest.model_reservation)) state_error
  raise_if (not env.lease_owned) state_error

-- what `settle` writes into the manifest and the scope's total, for usage that costs `actual`
abbrev pub settled : Env → Reservation → ModelUsage → ℕ → RunBudget → RunBudget
settled env reservation usage actual b = record b {
  manifest = record (b.manifest) {
    model_input_tokens = b.manifest.model_input_tokens + usage.input_tokens;
    model_output_tokens = b.manifest.model_output_tokens + usage.output_tokens;
    model_cost_usd = b.manifest.model_cost_usd + actual;
    model_time = b.manifest.model_time + (env.now - reservation.started);
    model_reservation = none;
  };
  spent = charge reservation.scope actual b.spent;
}

-- `violations` is not empty
abbrev pub has_violation : Reservation → ModelUsage → RunBudget → Bool
has_violation reservation usage after =
    ltb reservation.input_tokens usage.input_tokens
    || (ltb reservation.output_tokens usage.output_tokens
        || ltb (max_cost_usd after) after.manifest.model_cost_usd)

-- the end of `settle`, after its save
abbrev pub after_settle : Env → Bool → Result ℕ × RunBudget → Result ℕ × RunBudget
after_settle env violated (err e, b) = (err e, b)
after_settle env true (ok actual, b) = (err policy_error, b)
after_settle env false (ok actual, b) =
    (if env.breaker_clear then ok actual else err state_error, b)

-- RunBudget.settle; of the turn only its usage counts here.
unfoldable pub settle : Env → Reservation → ModelUsage → RunBudget → Result ℕ × RunBudget
settle env reservation usage b =
    elim (require_owned env reservation b >> cost reservation.spec usage) [
      | err e ↦ (err e, b)
      | ok actual ↦
          let after = settled env reservation usage actual b in
          let violated = has_violation reservation usage after in
          after_settle env violated
            (save env (if violated then budget_exceeded else completed) after actual)
    ]

-- RunBudget.record_failure, for an error that is a timeout or another one
unfoldable pub record_failure : Env → Reservation → Bool → RunBudget → Result (Unit {0}) × RunBudget
unfolding require_owned
record_failure env reservation is_timeout b = elim (require_owned env reservation b) [
  | err e ↦ (err e, b)
  | ok _ ↦
      save env (if is_timeout then timed_out else failed)
        (record b {
          manifest = record (b.manifest) {
            model_time = b.manifest.model_time + (env.now - reservation.started);
          };
        })
        tt
]

-- the whole of a reservation charged to its scope, and the reservation cleared
abbrev pub charged_in_full : Role → ℕ → ℕ → ℕ → RunBudget → RunBudget
charged_in_full scope input_tokens output_tokens cost_usd b = record b {
  manifest = record (b.manifest) {
    model_input_tokens = b.manifest.model_input_tokens + input_tokens;
    model_output_tokens = b.manifest.model_output_tokens + output_tokens;
    model_cost_usd = b.manifest.model_cost_usd + cost_usd;
    model_reservation = none;
  };
  spent = charge scope cost_usd b.spent;
}

-- RunBudget.charge_for_retry
unfoldable pub charge_for_retry : Env → Reservation → RunBudget → Result (Unit {0}) × RunBudget
unfolding require_owned
charge_for_retry env reservation b = elim (require_owned env reservation b) [
  | err e ↦ (err e, b)
  | ok _ ↦
      save env retry_scheduled
        (charged_in_full reservation.scope reservation.input_tokens reservation.output_tokens
          reservation.cost_usd b)
        tt
]

-- RunBudget.charge_failed_request. Every role is a key of SCOPES, so its scope is always found.
unfoldable pub charge_failed_request : Env → RunBudget → Result (Unit {0}) × RunBudget
charge_failed_request env b = elim (b.manifest.model_reservation) [
  | none ↦ (ok tt, b)
  | some r ↦
      if not env.lease_owned
      then (err state_error, b)
      else save env failure_charged
          (charged_in_full r.role r.input_tokens r.output_tokens r.cost_usd b) tt
]

-- daily_budget_left, from what `store.model_cost_since` says of the last 24 hours. The daily and the
-- per-run caps are the configured ones, in 1e-4 USD; the rest of the day is in nano-dollars. A
-- negative rest is below the headroom, which is above zero, and so is the 0 that stands for it.
unfoldable pub daily_budget_left : ℕ → ℕ → ℕ → Option ℕ
daily_budget_left max_per_day_e4 max_per_run_e4 spent_nano =
    let left = max_per_day_e4 * 100_000 - spent_nano in
    if leb (max_per_run_e4 * 25_000) left then some left else none

-- The cap that the orchestrator gives a run of that day: the smaller of the two.
unfoldable pub run_cap : ℕ → ℕ → ℕ
run_cap max_per_run_e4 daily_left = min (max_per_run_e4 * 100_000) daily_left
