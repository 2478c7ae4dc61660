-- ===== src/Budget/Invariant.antt =====
-- What holds of a run's budget between two calls, and that each method keeps it.
use autocontribute.Base.{
  ℕ, ◌+◌, ◌≤◌, ◌≡◌, refl, Option, none, some, Bool, false, arith, inl, inr, Option-cases,
}
use autocontribute.Errors.{ok, Result-cases}
use autocontribute.Pricing.Table.{Role, agent, critic, setup, triage, ModelSpec, ModelUsage}
use autocontribute.Pricing.Bounds.{cost, upper_bound_cost, IsPriced, cost-le-upper_bound_cost}
use autocontribute.Budget.State.{
  Pending, Spent, charge, pending_cost, RunBudget, Env, Reservation, max_cost_usd, share_of,
  cost_left,
}
use autocontribute.Budget.Operations.{
  grant, pending_for, with_pending, reserve, require_owned, settle, settled, record_failure,
  charge_for_retry, charge_failed_request, charged_in_full, has_violation,
}
use autocontribute.Budget.Reserve.{IsGranted, grant-IsGranted}

abbrev total_spent : Spent → ℕ
total_spent s = s.by_setup + s.by_agent + s.by_critic + s.by_triage

-- the pending reservation's cost, if it is of this scope
abbrev pub owed_for : Role → Option Pending → ℕ
owed_for scope none = 0
owed_for setup (some r) = elim (r.role) [ setup ↦ r.cost_usd | _ ↦ 0 ]
owed_for agent (some r) = elim (r.role) [ agent ↦ r.cost_usd | _ ↦ 0 ]
owed_for critic (some r) = elim (r.role) [ critic ↦ r.cost_usd | _ ↦ 0 ]
owed_for triage (some r) = elim (r.role) [ triage ↦ r.cost_usd | _ ↦ 0 ]

-- The scopes' totals add up to the run's; the run's total, and each capped scope's, with what is
-- pending lies within its cap; and no more calls were counted than are allowed.
pub record Inv (b : RunBudget) : Type 0 where
  pub counted : total_spent b.spent ≡ b.manifest.model_cost_usd
  pub within :
      b.manifest.model_cost_usd + pending_cost b.manifest.model_reservation ≤ max_cost_usd b
  pub setup_within : b.spent.by_setup + owed_for setup b.manifest.model_reservation ≤ share_of 15 b
  pub agent_within : b.spent.by_agent + owed_for agent b.manifest.model_reservation ≤ share_of 55 b
  pub triage_within :
      b.spent.by_triage + owed_for triage b.manifest.model_reservation ≤ share_of 10 b
  pub calls_within : b.manifest.model_calls ≤ b.max_model_calls

with_pending-Inv :
    (env : Env) (scope : Role) (spec : ModelSpec) (n max_out min_out : ℕ) (b : RunBudget) (out : ℕ)
    → Inv b
    → IsGranted env scope spec n max_out min_out b out
    → Inv (with_pending (pending_for env scope spec n out b) b)
unfolding cost_left
with_pending-Inv env setup spec n max_out min_out b out inv g = ground (arith, g.payable)
with_pending-Inv env scope spec n max_out min_out b out inv g = ground (arith, g.payable)

pub reserve-Inv :
    (env : Env) (scope : Role) (spec : ModelSpec) (n max_out min_out : ℕ) (b : RunBudget)
    → Inv b
    → Inv (reserve env scope spec n max_out min_out b).1
unfolding reserve
reserve-Inv env scope spec n max_out min_out b inv =
    elim (Result-cases (grant env scope spec n max_out min_out b)) [
      | inr (e, refused) ↦ ground arith
      | inl (out, granted) ↦
          let kept =
            with_pending-Inv env scope spec n max_out min_out b out inv
              (grant-IsGranted env scope spec n max_out min_out b out granted) in
          ground (arith, kept)
    ]

-- A reservation that `reserve` returned: its price is the worst case of a priced model, and while
-- the manifest's pending call is its own, the two agree.
pub record IsIssued (b : RunBudget) (r : Reservation) : Type 0 where
  pub priced : IsPriced r.spec
  pub bounded : r.cost_usd ≡ upper_bound_cost r.spec r.input_tokens r.output_tokens
  pub counted : r.call ≤ b.manifest.model_calls
  pub same :
      (p : Pending)
      → b.manifest.model_reservation ≡ some p
      → p.call ≡ r.call
      → (r.scope ≡ p.role) × (r.cost_usd ≡ p.cost_usd)

-- A turn billed within its reservation: no more input or output than was reserved, and the cached
-- and cache-write tokens counted in the input.
pub record IsHonest (r : Reservation) (usage : ModelUsage) : Type 0 where
  pub parts : usage.cached_input_tokens + usage.cache_write_tokens ≤ usage.input_tokens
  pub input : usage.input_tokens ≤ r.input_tokens
  pub output : usage.output_tokens ≤ r.output_tokens

require_owned-pending :
    (env : Env) (r : Reservation) (b : RunBudget)
    → require_owned env r b ≡ ok tt
    → (p : Pending) × (b.manifest.model_reservation ≡ some p) × (p.call ≡ r.call)
unfolding require_owned
require_owned-pending env r b h = elim (Option-cases (b.manifest.model_reservation)) [
  | inl missing ↦ absurd (ground arith)
  | inr (p, e) ↦ (p, e, ground arith)
]

-- Charging a pending reservation's scope with no more than it reserved, and clearing it.
charged-Inv :
    (b b' : RunBudget) (p : Pending) (charged : ℕ)
    → Inv b
    → b.manifest.model_reservation ≡ some p
    → charged ≤ p.cost_usd
    → b'.spent ≡ charge p.role charged b.spent
    → b'.manifest.model_cost_usd ≡ b.manifest.model_cost_usd + charged
    → b'.manifest.model_reservation ≡ none
    → b'.manifest.model_calls ≡ b.manifest.model_calls
    → b'.max_cost_nano ≡ b.max_cost_nano
    → b'.max_model_calls ≡ b.max_model_calls
    → Inv b'
charged-Inv b b' p charged inv e le es ec er ek em ex = by_role p.role refl
  where
    by_role : (role : Role) → p.role ≡ role → Inv b'
    by_role setup q = ground arith
    by_role agent q = ground arith
    by_role critic q = ground arith
    by_role triage q = ground arith

-- A turn billed within its reservation breaks no limit: `has_violation` is false.
pub settled-Inv :
    (env : Env) (r : Reservation) (usage : ModelUsage) (actual : ℕ) (b : RunBudget)
    → Inv b
    → IsIssued b r
    → IsHonest r usage
    → require_owned env r b ≡ ok tt
    → cost r.spec usage ≡ ok actual
    → Inv (settled env r usage actual b)
      × (has_violation r usage (settled env r usage actual b) ≡ false)
settled-Inv env r usage actual b inv known honest owned priced =
    let (p, e, own) = require_owned-pending env r b owned in
    let (c, priced_at, le) =
      cost-le-upper_bound_cost r.spec usage r.input_tokens r.output_tokens known.priced honest.parts
        honest.input honest.output in
    let (scope, price) = known.same p e own in
    let charged : actual ≤ p.cost_usd = ground (arith, known.bounded) in
    let kept : Inv (settled env r usage actual b) =
      charged-Inv b (settled env r usage actual b) p actual inv e charged (ground arith) refl refl
        refl refl refl in
    (kept, ground (arith, kept.within))

pub settle-Inv :
    (env : Env) (r : Reservation) (usage : ModelUsage) (b : RunBudget)
    → Inv b
    → IsIssued b r
    → IsHonest r usage
    → Inv (settle env r usage b).1
unfolding settle
settle-Inv env r usage b inv known honest = elim (Result-cases (require_owned env r b)) [
  | inr (e, refused) ↦ ground arith
  | inl (tt, owned) ↦ elim (Result-cases (cost r.spec usage)) [
    | inr (e, refused) ↦ ground arith
    | inl (actual, priced) ↦
        let kept = settled-Inv env r usage actual b inv known honest owned priced in
        ground (arith, kept.0)
  ]
]

pub record_failure-Inv :
    (env : Env) (r : Reservation) (is_timeout : Bool) (b : RunBudget)
    → Inv b
    → Inv (record_failure env r is_timeout b).1
unfolding record_failure
record_failure-Inv env r is_timeout b inv = elim (Result-cases (require_owned env r b)) [
  | inr (e, refused) ↦ ground arith
  | inl (tt, owned) ↦ ground arith
]

pub charge_for_retry-Inv :
    (env : Env) (r : Reservation) (b : RunBudget)
    → Inv b
    → IsIssued b r
    → Inv (charge_for_retry env r b).1
unfolding charge_for_retry
charge_for_retry-Inv env r b inv known = elim (Result-cases (require_owned env r b)) [
  | inr (e, refused) ↦ ground arith
  | inl (tt, owned) ↦
      let (p, e, own) = require_owned-pending env r b owned in
      let (scope, price) = known.same p e own in
      let after = charged_in_full r.scope r.input_tokens r.output_tokens r.cost_usd b in
      let kept : Inv after =
        charged-Inv b after p r.cost_usd inv e (omega arith) (ground arith) refl refl refl refl
          refl in
      ground (arith, kept)
]

pub charge_failed_request-Inv :
    (env : Env) (b : RunBudget) → Inv b → Inv (charge_failed_request env b).1
unfolding charge_failed_request
charge_failed_request-Inv env b inv = elim (Option-cases (b.manifest.model_reservation)) [
  | inl missing ↦ ground arith
  | inr (p, e) ↦
      let after = charged_in_full p.role p.input_tokens p.output_tokens p.cost_usd b in
      let kept : Inv after =
        charged-Inv b after p p.cost_usd inv e (omega arith) refl refl refl refl refl refl in
      ground (arith, kept)
]
