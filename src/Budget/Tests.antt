-- ===== src/Budget/Tests.antt =====
-- A run's budget followed by hand, and the theorems at its states.
use autocontribute.Base.{
  ℕ, ◌+◌, ◌≤◌, ◌<◌, ◌≡◌, ◌≢◌, ◌⊎◌, ◌↔◌, ◌*◌, refl, none, some, [], ◌∷◌, true, false, arith,
}
use mathlib.Core.List.{Memᴰ}
use autocontribute.Errors.{ok, err, policy_error, state_error, artifact_sync_error}
use autocontribute.Pricing.Table.{critic, triage, ModelUsage, claude_haiku_5_5}
use autocontribute.Pricing.Bounds.{tier_rates, cost, upper_bound_cost, IsPriced}
use autocontribute.Budget.State.{
  Pending, Manifest, started, completed, budget_exceeded, RunBudget, Env, Reservation, seconds_left,
  cost_left, scope_size, share_of, max_cost_usd, pending_cost,
}
use autocontribute.Budget.Operations.{
  nothing_spent, create, affordable, grant, issued, pending_for, with_pending, reserve,
  require_owned, settle, daily_budget_left, run_cap,
}
use autocontribute.Budget.Reserve.{IsWorstCase, IsReceipt, IsOpened, IsGranted, reserve_durable}
use autocontribute.Budget.Invariant.{IsHonest}
use autocontribute.Budget.Trace.{
  System, reserves, settles, Reach, here, next, IsFresh, start, spending_capped, critic_floor,
  settle_within,
}
use autocontribute.Budget.Settle.{IsCharged, IsShared, IsOver, settle_charges, daily_cap_kept}

abbrev blank : Manifest
blank = record {
  model_calls = 0;
  model_input_tokens = 0;
  model_output_tokens = 0;
  model_cost_usd = 0;
  model_time = 0;
  model_reservation = none;
}

-- $10, 200 calls and 90 minutes
abbrev fresh_budget : RunBudget
fresh_budget = record {
  manifest = blank;
  max_cost_nano = 10_000_000_000;
  max_model_calls = 200;
  deadline = 5_400_000_007;
  spent = nothing_spent;
  saved = blank;
  events = [];
}

created : create blank 10_000_000_000 200 90 7 ≡ ok fresh_budget
unfolding create
created = refl

abbrev calm : Env
calm = record {
  breaker_clear = true;
  lease_owned = true;
  saves = true;
  artifact_written = true;
  now = 10_000_000;
  later = 10_000_005;
  utc_now = 77;
}

abbrev first_pending : Pending
first_pending = pending_for calm triage claude_haiku_5_5 2_000 4_000 fresh_budget

abbrev first : Reservation
first = issued calm claude_haiku_5_5 first_pending

abbrev reserved_budget : RunBudget
reserved_budget = record (with_pending first_pending fresh_budget) {
  saved = (with_pending first_pending fresh_budget).manifest;
  events = started ∷ [];
}

reserved :
    reserve calm triage claude_haiku_5_5 2_000 4_000 4_000 fresh_budget
    ≡ (ok first, reserved_budget)
unfolding reserve grant affordable cost_left upper_bound_cost tier_rates seconds_left
reserved = refl

reserve_durable_example :
    (p : Pending) × IsWorstCase calm triage claude_haiku_5_5 2_000 fresh_budget p
    × IsReceipt calm claude_haiku_5_5 p first
    × IsOpened fresh_budget reserved_budget p
    × (reserved_budget.saved ≡ reserved_budget.manifest)
    × (reserved_budget.events ≡ started ∷ [])
    × IsGranted calm triage claude_haiku_5_5 2_000 4_000 4_000 fresh_budget p.output_tokens
reserve_durable_example =
    reserve_durable calm triage claude_haiku_5_5 2_000 4_000 4_000 fresh_budget reserved_budget
      first reserved

abbrev broken_save : Env
broken_save = record calm { saves = false }

save_failed :
    reserve broken_save triage claude_haiku_5_5 2_000 4_000 4_000 fresh_budget
    ≡ (err state_error, with_pending first_pending fresh_budget)
unfolding reserve grant affordable cost_left upper_bound_cost tier_rates seconds_left
save_failed = refl

abbrev unwritten : Env
unwritten = record calm { artifact_written = false }

abbrev honest_usage : ModelUsage
honest_usage = record {
  input_tokens = 1_800;
  cached_input_tokens = 500;
  cache_write_tokens = 300;
  output_tokens = 900;
  reasoning_tokens = 0;
  total_tokens = 2_700;
}

honest : IsHonest first honest_usage
honest = omega arith

haiku-IsPriced : IsPriced claude_haiku_5_5
haiku-IsPriced = omega arith

abbrev reserved_system : System
reserved_system = record { budget = reserved_budget; returned = first ∷ [] }

reached : Reach (start fresh_budget) reserved_system
unfolding reserve grant affordable cost_left upper_bound_cost tier_rates seconds_left
reached = next here (reserves calm triage claude_haiku_5_5 2_000 4_000 4_000 haiku-IsPriced)

blank-IsFresh : IsFresh blank
blank-IsFresh = ground arith

abbrev settled_system : System
settled_system = record reserved_system {
  budget = (settle calm first honest_usage reserved_budget).1;
}

reached_settled : Reach (start fresh_budget) settled_system
reached_settled = next reached (settles calm first honest_usage (Memᴰ.head refl) honest)

spending_capped_example :
    (settled_system.budget.manifest.model_cost_usd
        + pending_cost settled_system.budget.manifest.model_reservation
      ≤ max_cost_usd settled_system.budget)
    × (settled_system.budget.spent.by_setup ≤ share_of 15 settled_system.budget)
    × (settled_system.budget.spent.by_agent ≤ share_of 55 settled_system.budget)
    × (settled_system.budget.spent.by_triage ≤ share_of 10 settled_system.budget)
    × (settled_system.budget.manifest.model_calls ≤ settled_system.budget.max_model_calls)
spending_capped_example =
    spending_capped blank 10_000_000_000 200 90 7 fresh_budget blank-IsFresh created settled_system
      reached_settled

critic_floor_example :
    scope_size critic settled_system.budget
    ≤ cost_left critic settled_system.budget + settled_system.budget.spent.by_critic
unfolding settle require_owned cost tier_rates
critic_floor_example =
    critic_floor blank 10_000_000_000 200 90 7 fresh_budget blank-IsFresh created settled_system
      reached_settled refl

settle_within_example : (settle calm first honest_usage reserved_budget).0 ≢ err policy_error
settle_within_example =
    settle_within blank 10_000_000_000 200 90 7 fresh_budget blank-IsFresh created reserved_system
      reached calm first honest_usage (Memᴰ.head refl) honest

-- more output than the 4,000 tokens reserved
abbrev greedy_usage : ModelUsage
greedy_usage = record honest_usage { output_tokens = 5_000 }

abbrev two_seconds_on : Env
two_seconds_on = record calm { now = 12_000_005 }

settle_charges_example :
    let (out, b') = settle two_seconds_on first greedy_usage reserved_budget in
    IsCharged greedy_usage 264_250_000 2_000_000 (reserved_budget.manifest) b'.manifest
    × IsShared triage critic 264_250_000 nothing_spent b'.spent
    × (b'.saved ≡ b'.manifest)
    × ((out ≡ err policy_error) ↔ (
        (two_seconds_on.artifact_written ≡ true)
        × IsOver first greedy_usage 264_250_000 reserved_budget))
    × ((out ≡ err artifact_sync_error) ↔ (two_seconds_on.artifact_written ≡ false))
    × ((IsOver first greedy_usage 264_250_000 reserved_budget
          × (b'.events ≡ started ∷ budget_exceeded ∷ []))
        ⊎ (¬ IsOver first greedy_usage 264_250_000 reserved_budget
            × (b'.events ≡ started ∷ completed ∷ [])))
unfolding require_owned cost tier_rates
settle_charges_example =
    settle_charges two_seconds_on first greedy_usage 264_250_000 reserved_budget critic refl refl
      refl

daily_cap_kept_example :
    ((left : ℕ) × (daily_budget_left 250_000 100_000 18_000_000_000 ≡ some left)
      × (18_000_000_000 + run_cap 100_000 left ≤ 250_000 * 100_000)
      × (100_000 * 100_000 ≤ 4 * run_cap 100_000 left)
      × (run_cap 100_000 left ≤ 100_000 * 100_000))
    ⊎ ((daily_budget_left 250_000 100_000 18_000_000_000 ≡ none)
        × (250_000 * 100_000 < 18_000_000_000 + 100_000 * 25_000))
daily_cap_kept_example = daily_cap_kept 250_000 100_000 18_000_000_000 (omega arith)
