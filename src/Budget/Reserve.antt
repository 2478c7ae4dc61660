-- ===== src/Budget/Reserve.antt =====
-- What RunBudget.reserve promises: which requests it refuses, and what it has saved when it returns.
use autocontribute.Base.{
  ℕ, ◌+◌, ◌-◌, ◌/◌, ◌*◌, ◌≤◌, ◌<◌, ◌≡◌, refl, none, some, inl, inr, [], ◌∷◌, ◌++◌, true, arith, ap,
  ◌∙◌, sym, subst,
}
use native.Mathlib.Nat.{div-mul-le_self, mul-le-mul_right, le_trans, pos_of_div-pos}
use autocontribute.Errors.{ok, Result-cases}
use autocontribute.Pricing.Table.{Role, ModelSpec}
use autocontribute.Pricing.Bounds.{tier_rates, upper_bound_cost, upper_bound_cost-split}
use autocontribute.Budget.State.{
  started, RunBudget, Env, Reservation, seconds_left, cost_left, Pending,
}
use autocontribute.Budget.Operations.{
  second, max_turn_time, affordable, grant, pending_for, with_pending, issued, reserve,
}

-- Output tokens that are affordable, and more than none, cost no more than is left.
affordable-cost :
    (left input_cost rate out : ℕ)
    → 0 < out
    → out ≤ (left - input_cost) / rate
    → input_cost + out * rate ≤ left
affordable-cost left input_cost rate out pos h =
    let fits : out * rate ≤ left - input_cost =
      le_trans (mul-le-mul_right rate h) (div-mul-le_self (left - input_cost) rate) in
    let room : 0 < left - input_cost = pos_of_div-pos rate (omega arith) in omega arith

affordable_lem :
    (b : RunBudget) (scope : Role) (spec : ModelSpec) (n : ℕ)
    → affordable b scope spec n
      ≡ (cost_left scope b - upper_bound_cost spec n 0) / (tier_rates spec n).output
unfolding affordable
affordable_lem b scope spec n = refl

pub record IsGranted (env : Env) (scope : Role) (spec : ModelSpec) (n max_out min_out : ℕ)
    (b : RunBudget) (out : ℕ) : Type 0 where
  pub clear : env.breaker_clear ≡ true
  pub owned : env.lease_owned ≡ true
  pub idle : b.manifest.model_reservation ≡ none
  pub call_left : b.manifest.model_calls < b.max_model_calls
  pub time_left : second ≤ seconds_left b env.now
  pub some_output : (1 ≤ min_out) × (min_out ≤ out) × (out ≤ max_out)
  pub payable : upper_bound_cost spec n out ≤ cost_left scope b

pub grant-IsGranted :
    (env : Env) (scope : Role) (spec : ModelSpec) (n max_out min_out : ℕ) (b : RunBudget) (out : ℕ)
    → grant env scope spec n max_out min_out b ≡ ok out
    → IsGranted env scope spec n max_out min_out b out
unfolding grant
grant-IsGranted env scope spec n max_out min_out b out h = record {
  clear = ground arith;
  owned = ground arith;
  idle = ground arith;
  call_left = ground arith;
  time_left = ground arith;
  some_output = ground arith;
  payable = rw (upper_bound_cost-split spec n out) (
      affordable-cost (cost_left scope b) (upper_bound_cost spec n 0) (tier_rates spec n).output out
        (ground arith) (ground (arith, affordable_lem b scope spec n)));
}

-- The reservation p is the worst case of a call of that scope and input, next after b's calls.
pub record IsWorstCase (env : Env) (scope : Role) (spec : ModelSpec) (n : ℕ) (b : RunBudget)
    (p : Pending) : Type 0 where
  pub next_call : p.call ≡ b.manifest.model_calls + 1
  pub of_scope : p.role ≡ scope
  pub of_input : p.input_tokens ≡ n
  pub worst_cost : p.cost_usd ≡ upper_bound_cost spec n p.output_tokens
  pub in_time : (p.timeout ≤ seconds_left b env.now) × (p.timeout ≤ max_turn_time)
  pub stamped : p.started_at ≡ env.utc_now

-- The budget b' is b with one more call counted and p pending, and nothing else changed in memory.
pub record IsOpened (b b' : RunBudget) (p : Pending) : Type 0 where
  pub counted : b'.manifest.model_calls ≡ b.manifest.model_calls + 1
  pub pending : b'.manifest.model_reservation ≡ some p
  pub tokens_kept :
      (b'.manifest.model_input_tokens ≡ b.manifest.model_input_tokens)
      × (b'.manifest.model_output_tokens ≡ b.manifest.model_output_tokens)
  pub cost_kept : b'.manifest.model_cost_usd ≡ b.manifest.model_cost_usd
  pub time_kept : b'.manifest.model_time ≡ b.manifest.model_time
  pub spent_kept : b'.spent ≡ b.spent
  pub limits_kept :
      (b'.max_cost_nano ≡ b.max_cost_nano)
      × (b'.max_model_calls ≡ b.max_model_calls)
      × (b'.deadline ≡ b.deadline)

-- The caller's reservation says what the saved one says.
pub record IsReceipt (env : Env) (spec : ModelSpec) (p : Pending) (r : Reservation) : Type 0 where
  pub same_call : r.call ≡ p.call
  pub same_scope : r.scope ≡ p.role
  pub same_spec : r.spec ≡ spec
  pub same_tokens : (r.input_tokens ≡ p.input_tokens) × (r.output_tokens ≡ p.output_tokens)
  pub same_cost : r.cost_usd ≡ p.cost_usd
  pub same_timeout : r.timeout ≡ p.timeout
  pub from_now : r.started ≡ env.later

pending_for-IsWorstCase :
    (env : Env) (scope : Role) (spec : ModelSpec) (n out : ℕ) (b : RunBudget)
    → IsWorstCase env scope spec n b (pending_for env scope spec n out b)
pending_for-IsWorstCase env scope spec n out b = record {
  next_call = refl;
  of_scope = refl;
  of_input = refl;
  worst_cost = refl;
  in_time = (omega arith, omega arith);
  stamped = refl;
}

-- The run is charged for p in memory, and the reservation that p pends is open.
with_pending-IsOpened : (b : RunBudget) (p : Pending) → IsOpened b (with_pending p b) p
with_pending-IsOpened b p = record {
  counted = refl;
  pending = refl;
  tokens_kept = (refl, refl);
  cost_kept = refl;
  time_kept = refl;
  spent_kept = refl;
  limits_kept = (refl, refl, refl);
}

-- A budget that has the same memory as another is opened where that one is.
IsOpened-same :
    (b b' opened : RunBudget) (p : Pending)
    → b'.manifest ≡ opened.manifest
    → b'.spent ≡ opened.spent
    → b'.max_cost_nano ≡ opened.max_cost_nano
    → b'.max_model_calls ≡ opened.max_model_calls
    → b'.deadline ≡ opened.deadline
    → IsOpened b opened p
    → IsOpened b b' p
IsOpened-same b b' opened p m s c n d o = record {
  counted = ap (λ x. x.model_calls) m ∙ o.counted;
  pending = ap (λ x. x.model_reservation) m ∙ o.pending;
  tokens_kept = (
    ap (λ x. x.model_input_tokens) m ∙ o.tokens_kept.0,
    ap (λ x. x.model_output_tokens) m ∙ o.tokens_kept.1,
  );
  cost_kept = ap (λ x. x.model_cost_usd) m ∙ o.cost_kept;
  time_kept = ap (λ x. x.model_time) m ∙ o.time_kept;
  spent_kept = s ∙ o.spent_kept;
  limits_kept = (c ∙ o.limits_kept.0, n ∙ o.limits_kept.1, d ∙ o.limits_kept.2);
}

-- A reservation that `reserve` returns is one that every check allowed: the circuit breaker was
-- clear, the run still owned, no reservation pending, a call and a second of time left. Its output
-- limit lies between the requested minimum and maximum, its cost is the worst case for its tokens
-- and at most what the scope has left, and its timeout at most the time left and ten minutes. When
-- it is returned the call is counted and the reservation pending, the store holds that manifest
-- already with the event of the start, and every other field of the budget is as before, so no
-- request is sent whose charge is not on record.
pub reserve_durable :
    (env : Env) (scope : Role) (spec : ModelSpec) (n max_out min_out : ℕ) (b b' : RunBudget)
    (r : Reservation)
    → reserve env scope spec n max_out min_out b ≡ (ok r, b')
    → (p : Pending) × IsWorstCase env scope spec n b p
      × IsReceipt env spec p r
      × IsOpened b b' p
      × (b'.saved ≡ b'.manifest)
      × (b'.events ≡ b.events ++ started ∷ [])
      × IsGranted env scope spec n max_out min_out b p.output_tokens
unfolding reserve
reserve_durable env scope spec n max_out min_out b b' r h =
    elim (Result-cases (grant env scope spec n max_out min_out b)) [
      | inr (e, refused) ↦ absurd (ground arith)
      | inl (out, granted) ↦
          let p : Pending = pending_for env scope spec n out b in
          let same : r ≡ issued env spec p = ground arith in
          (
            p,
            pending_for-IsWorstCase env scope spec n out b,
            subst (IsReceipt env spec p) (sym same) (record {
              same_call = refl;
              same_scope = refl;
              same_spec = refl;
              same_tokens = (refl, refl);
              same_cost = refl;
              same_timeout = refl;
              from_now = refl;
            }),
            IsOpened-same b b' (with_pending p b) p (ground arith) (ground arith) (ground arith)
                (ground arith) (ground arith) (with_pending-IsOpened b p),
            ground arith,
            ground arith,
            grant-IsGranted env scope spec n max_out min_out b out granted,
          )
    ]
