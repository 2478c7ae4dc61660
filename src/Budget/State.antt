-- ===== src/Budget/State.antt =====
-- The fields that RunBudget keeps and those of RunManifest that it writes. Money is in units of
-- 1e-11 USD, but for the cap, which is given in nano-dollars: the configured cap has at most four
-- decimals, and what the day leaves is a cap of that kind less prices, which are whole nano-dollars.
-- So each scope's share of it is a whole number of units. Times are clock readings in microseconds.
use autocontribute.Base.{ℕ, ◌+◌, ◌-◌, ◌*◌, min, Option, none, some, List, Bool}
use autocontribute.Pricing.Table.{Role, agent, critic, setup, triage, ModelSpec}

-- ModelBudgetReservation
pub record Pending : Type 0 where
  pub call : ℕ
  pub role : Role
  pub input_tokens : ℕ
  pub output_tokens : ℕ
  pub cost_usd : ℕ
  pub timeout : ℕ
  pub started_at : ℕ

-- the budget's part of RunManifest
pub record Manifest : Type 0 where
  pub model_calls : ℕ
  pub model_input_tokens : ℕ
  pub model_output_tokens : ℕ
  pub model_cost_usd : ℕ
  pub model_time : ℕ
  pub model_reservation : Option Pending

-- the `event` of each save
pub data Event : Type 0 where
  started completed budget_exceeded failed timed_out retry_scheduled failure_charged : Event

-- `_spent`, a dict with one entry for each key of SCOPES
pub record Spent : Type 0 where
  pub by_setup : ℕ
  pub by_agent : ℕ
  pub by_critic : ℕ
  pub by_triage : ℕ

abbrev pub spent_on : Role → Spent → ℕ
spent_on setup s = s.by_setup
spent_on agent s = s.by_agent
spent_on critic s = s.by_critic
spent_on triage s = s.by_triage

-- `_spent[scope] += cost`
abbrev pub charge : Role → ℕ → Spent → Spent
charge setup cost s = record s { by_setup = s.by_setup + cost }
charge agent cost s = record s { by_agent = s.by_agent + cost }
charge critic cost s = record s { by_critic = s.by_critic + cost }
charge triage cost s = record s { by_triage = s.by_triage + cost }

-- RunBudget. `saved` and `events` are what the store holds: the run's row and its ledger.
pub record RunBudget : Type 0 where
  pub manifest : Manifest
  pub max_cost_nano : ℕ
  pub max_model_calls : ℕ
  pub deadline : ℕ
  pub spent : Spent
  pub saved : Manifest
  pub events : List Event

-- What a method meets outside: whether the circuit breaker is clear, whether this process still
-- owns the run, whether the store accepts the save, whether the manifest's file can be written after
-- the save was committed, two readings of the clock and the time of day.
pub record Env : Type 0 where
  pub breaker_clear : Bool
  pub lease_owned : Bool
  pub saves : Bool
  pub artifact_written : Bool
  pub now : ℕ
  pub later : ℕ
  pub utc_now : ℕ

-- Reservation
pub record Reservation : Type 0 where
  pub call : ℕ
  pub scope : Role
  pub spec : ModelSpec
  pub input_tokens : ℕ
  pub output_tokens : ℕ
  pub cost_usd : ℕ
  pub timeout : ℕ
  pub started : ℕ

abbrev pub max_cost_usd : RunBudget → ℕ
max_cost_usd b = b.max_cost_nano * 100

-- SCOPES: a phase's turns, and its cap and floor in hundredths of the run's cap
pub record ScopeLimits : Type 0 where
  pub max_turns : ℕ
  pub cap_share : Option ℕ
  pub floor_share : ℕ

abbrev pub scopes : Role → ScopeLimits
scopes setup = record { max_turns = 40; cap_share = some 15; floor_share = 0 }
scopes agent = record { max_turns = 100; cap_share = some 55; floor_share = 0 }
scopes critic = record { max_turns = 40; cap_share = none; floor_share = 20 }
scopes triage = record { max_turns = 1; cap_share = some 10; floor_share = 0 }

-- `share * self.max_cost_usd`
abbrev pub share_of : ℕ → RunBudget → ℕ
share_of hundredths b = hundredths * b.max_cost_nano

-- what the pending reservation may cost
abbrev pub pending_cost : Option Pending → ℕ
pending_cost none = 0
pending_cost (some r) = r.cost_usd

-- RunBudget.seconds_left
unfoldable pub seconds_left : RunBudget → ℕ → ℕ
seconds_left b clock = b.deadline - clock

-- RunBudget.scope_size
unfoldable pub scope_size : Role → RunBudget → ℕ
scope_size scope b = elim ((scopes scope).cap_share) [
  | none ↦ share_of ((scopes scope).floor_share) b
  | some share ↦ share_of share b
]

-- RunBudget.cost_left: a truncated difference stands for `max(0, ...)` of a signed one.
unfoldable pub cost_left : Role → RunBudget → ℕ
cost_left scope b =
    let left =
      max_cost_usd b - b.manifest.model_cost_usd - pending_cost b.manifest.model_reservation in
    elim ((scopes scope).cap_share) [
      | none ↦ left
      | some share ↦ min left (share_of share b - spent_on scope b.spent)
    ]
