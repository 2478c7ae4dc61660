-- ===== src/Budget/Settle.antt =====
-- What RunBudget.settle charges and when it fails the run, and the cap that the day leaves a run.
use autocontribute.Base.{
  ℕ, ◌+◌, ◌-◌, ◌*◌, ◌≤◌, leb, ◌<◌, ◌≡◌, ◌≢◌, ◌⊎◌, ◌↔◌, inl, inr, refl, none, some, if◌then◌else◌,
  ◌∷◌, [], ◌++◌, true, false, arith, Bool-cases, subst,
}
use autocontribute.Errors.{ok, err, policy_error, artifact_sync_error}
use autocontribute.Pricing.Table.{Role, agent, critic, setup, triage, ModelUsage}
use autocontribute.Pricing.Bounds.{cost}
use autocontribute.Budget.State.{
  completed, budget_exceeded, RunBudget, Manifest, Spent, spent_on, charge, Env, Reservation,
  max_cost_usd,
}
use autocontribute.Budget.Operations.{
  require_owned, settled, after_settle, save, has_violation, settle, daily_budget_left, run_cap,
}

-- What a charge to `scope` makes of the total of `other`.
abbrev pub IsShared : Role → Role → ℕ → Spent → Spent → Type 0
IsShared scope other cost s after =
    ((other ≡ scope) × (spent_on other after ≡ spent_on other s + cost))
    ⊎ ((other ≢ scope) × (spent_on other after ≡ spent_on other s))

-- A charge is added to its own scope and leaves the others alone.
charge_lem :
    (scope other : Role) (cost : ℕ) (s : Spent) → IsShared scope other cost s (charge scope cost s)
charge_lem setup setup cost s = inl (refl, refl)
charge_lem agent agent cost s = inl (refl, refl)
charge_lem critic critic cost s = inl (refl, refl)
charge_lem triage triage cost s = inl (refl, refl)
charge_lem setup agent cost s = inr (λ e. cc, refl)
charge_lem setup critic cost s = inr (λ e. cc, refl)
charge_lem setup triage cost s = inr (λ e. cc, refl)
charge_lem agent setup cost s = inr (λ e. cc, refl)
charge_lem agent critic cost s = inr (λ e. cc, refl)
charge_lem agent triage cost s = inr (λ e. cc, refl)
charge_lem critic setup cost s = inr (λ e. cc, refl)
charge_lem critic agent cost s = inr (λ e. cc, refl)
charge_lem critic triage cost s = inr (λ e. cc, refl)
charge_lem triage setup cost s = inr (λ e. cc, refl)
charge_lem triage agent cost s = inr (λ e. cc, refl)
charge_lem triage critic cost s = inr (λ e. cc, refl)

-- More was used than reserved, or the run's new total is above its cap.
pub IsOver : Reservation → ModelUsage → ℕ → RunBudget → Type 0
IsOver r usage actual b =
    (r.input_tokens < usage.input_tokens)
    ⊎ (r.output_tokens < usage.output_tokens)
    ⊎ (max_cost_usd b < b.manifest.model_cost_usd + actual)

-- The manifest m' is m with that usage, its cost and its time added, and nothing pending.
pub record IsCharged (usage : ModelUsage) (actual time : ℕ) (m m' : Manifest) : Type 0 where
  pub inputs_added : m'.model_input_tokens ≡ m.model_input_tokens + usage.input_tokens
  pub outputs_added : m'.model_output_tokens ≡ m.model_output_tokens + usage.output_tokens
  pub cost_added : m'.model_cost_usd ≡ m.model_cost_usd + actual
  pub time_added : m'.model_time ≡ m.model_time + time
  pub cleared : m'.model_reservation ≡ none
  pub calls_kept : m'.model_calls ≡ m.model_calls

settle-cases :
    (env : Env) (r : Reservation) (usage : ModelUsage) (actual : ℕ) (b : RunBudget)
    → require_owned env r b ≡ ok tt
    → cost r.spec usage ≡ ok actual
    → settle env r usage b ≡ (
        let after = settled env r usage actual b in
        let violated = has_violation r usage after in
        after_settle env violated
          (save env (if violated then budget_exceeded else completed) after actual))
unfolding settle
settle-cases env r usage actual b owned priced = rw (settle, owned, priced)

-- For a reservation that is pending and owned, usage that has a price, and a store that commits the
-- save, one save adds the tokens, the actual cost and the time to the run's totals and clears the
-- reservation, whatever the provider billed; each scope's total grows by the actual cost where it is
-- the reservation's scope, and not at all where it is another. The saved event is `budget_exceeded`
-- exactly when the input or the output is above its reservation or the run's new total is above its
-- cap. PolicyError follows exactly then, if the manifest's file could be written; if it could not,
-- the error of the file follows.
pub settle_charges :
    (env : Env) (r : Reservation) (usage : ModelUsage) (actual : ℕ) (b : RunBudget) (other : Role)
    → require_owned env r b ≡ ok tt
    → cost r.spec usage ≡ ok actual
    → env.saves ≡ true
    → let (out, b') = settle env r usage b in
      IsCharged usage actual (env.now - r.started) b.manifest b'.manifest
      × IsShared r.scope other actual b.spent b'.spent
      × (b'.saved ≡ b'.manifest)
      × ((out ≡ err policy_error) ↔ ((env.artifact_written ≡ true) × IsOver r usage actual b))
      × ((out ≡ err artifact_sync_error) ↔ (env.artifact_written ≡ false))
      × ((IsOver r usage actual b × (b'.events ≡ b.events ++ budget_exceeded ∷ []))
          ⊎ (¬ IsOver r usage actual b × (b'.events ≡ b.events ++ completed ∷ [])))
unfolding IsOver
settle_charges env r usage actual b other owned priced saves =
    let after = settled env r usage actual b in
    let how : settle env r usage b
        ≡ after_settle env (has_violation r usage after) (
            save env (if has_violation r usage after then budget_exceeded else completed) after
              actual) =
      settle-cases env r usage actual b owned priced in
    let spent : charge r.scope actual b.spent ≡ (settle env r usage b).1.spent = ground arith in
    let shares =
      subst (λ s. IsShared r.scope other actual b.spent s) spent
        (charge_lem r.scope other actual b.spent) in
    elim (Bool-cases (has_violation r usage after)) [
      | inl over ↦
          let excess : IsOver r usage actual b = ground arith in
          (
            ground arith,
            shares,
            ground arith,
            (λ h. (ground arith, excess), λ h. ground arith),
            (λ h. ground arith, λ h. ground arith),
            inl (excess, ground arith),
          )
      | inr within ↦
          let fits : ¬ IsOver r usage actual b = ground arith in
          (
            ground arith,
            shares,
            ground arith,
            (λ h. ground arith, λ h. ground arith),
            (λ h. ground arith, λ h. ground arith),
            inr (fits, ground arith),
          )
    ]

-- When the day leaves a run a budget, the run's cap and what the last 24 hours have spent come to at
-- most the daily cap, and the run's cap is at least a quarter of the per-run cap and at most all of
-- it. When it leaves none, less than that quarter was left.
pub daily_cap_kept :
    (max_per_day_e4 max_per_run_e4 spent_nano : ℕ)
    → 0 < max_per_run_e4
    → ((left : ℕ) × (daily_budget_left max_per_day_e4 max_per_run_e4 spent_nano ≡ some left)
        × (spent_nano + run_cap max_per_run_e4 left ≤ max_per_day_e4 * 100_000)
        × (max_per_run_e4 * 100_000 ≤ 4 * run_cap max_per_run_e4 left)
        × (run_cap max_per_run_e4 left ≤ max_per_run_e4 * 100_000))
      ⊎ ((daily_budget_left max_per_day_e4 max_per_run_e4 spent_nano ≡ none)
          × (max_per_day_e4 * 100_000 < spent_nano + max_per_run_e4 * 25_000))
unfolding daily_budget_left run_cap
daily_cap_kept day run spent pos = elim (Bool-cases (leb (run * 25_000) (day * 100_000 - spent))) [
  | inl enough ↦ inl (day * 100_000 - spent, ground arith, ground arith, ground arith, ground arith)
  | inr short ↦ inr (ground arith, ground arith)
]
