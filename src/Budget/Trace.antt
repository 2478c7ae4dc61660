-- ===== src/Budget/Trace.antt =====
-- Every budget that a run can reach: any calls of the methods, in any order and with any failures of
-- the store, the lease or the breaker, by a provider that bills within its reservations.
use autocontribute.Base.{
  ℕ, ◌+◌, ◌≤◌, ◌<◌, ◌≡◌, refl, ◌⊎◌, inl, inr, List, [], ◌∷◌, none, some, Bool, arith, ◌≢◌, subst,
  sym,
}
use mathlib.Core.List.{Memᴰ}
use autocontribute.Errors.{Result, ok, err, policy_error, Result-cases}
use autocontribute.Pricing.Table.{Role, critic, ModelSpec, ModelUsage}
use autocontribute.Pricing.Bounds.{cost, IsPriced}
use autocontribute.Budget.State.{
  Pending, RunBudget, Env, Reservation, Manifest, max_cost_usd, share_of, cost_left, pending_cost,
  scope_size,
}
use autocontribute.Budget.Operations.{
  create, reserve, require_owned, settle, record_failure, charge_for_retry, charge_failed_request,
}
use autocontribute.Budget.Reserve.{reserve_durable}
use autocontribute.Budget.Invariant.{
  settled-Inv, Inv, IsIssued, IsHonest, reserve-Inv, settle-Inv, record_failure-Inv,
  charge_for_retry-Inv, charge_failed_request-Inv,
}

-- a run's budget, with the reservations that `reserve` has returned to its callers
pub record System : Type 0 where
  pub budget : RunBudget
  pub returned : List Reservation

abbrev pub add_returned : List Reservation → Result Reservation × RunBudget → System
add_returned rs (ok r, b) = record { budget = b; returned = r ∷ rs }
add_returned rs (err e, b) = record { budget = b; returned = rs }

pub data Step (s : System) : System → Type 0 where
  reserves :
      (env : Env) (scope : Role) (spec : ModelSpec) (n max_out min_out : ℕ)
      → IsPriced spec
      → Step s (add_returned s.returned (reserve env scope spec n max_out min_out s.budget))
  settles :
      (env : Env) (r : Reservation) (usage : ModelUsage)
      → Memᴰ r s.returned
      → IsHonest r usage
      → Step s (record s { budget = (settle env r usage s.budget).1 })
  fails :
      (env : Env) (r : Reservation) (is_timeout : Bool)
      → Memᴰ r s.returned
      → Step s (record s { budget = (record_failure env r is_timeout s.budget).1 })
  retries :
      (env : Env) (r : Reservation)
      → Memᴰ r s.returned
      → Step s (record s { budget = (charge_for_retry env r s.budget).1 })
  gives_up : (env : Env) → Step s (record s { budget = (charge_failed_request env s.budget).1 })

-- From a budget that `create` made for a run with nothing charged and nothing pending.
pub data Reach (s : System) : System → Type 0 where
  here : Reach s s
  next : {t u : System} → Reach s t → Step t u → Reach s u

-- No call is uncounted, and a reservation that is pending was pending before or is newer.
record IsLater (b b' : RunBudget) : Type 0 where
  calls_kept : b.manifest.model_calls ≤ b'.manifest.model_calls
  newer :
      (p : Pending)
      → b'.manifest.model_reservation ≡ some p
      → (b.manifest.model_reservation ≡ some p) ⊎ (b.manifest.model_calls < p.call)

IsIssued-later :
    {b b' : RunBudget} → IsLater b b' → (r : Reservation) → IsIssued b r → IsIssued b' r
IsIssued-later later r known = record {
  priced = known.priced;
  bounded = known.bounded;
  counted = omega (arith, later.calls_kept, known.counted);
  same = λ p e own. elim (later.newer p e) [
    | inl old ↦ known.same p old own
    | inr new ↦ absurd (omega (arith, known.counted))
  ];
}

reserve-IsLater :
    (env : Env) (scope : Role) (spec : ModelSpec) (n max_out min_out : ℕ) (b : RunBudget)
    → IsLater b (reserve env scope spec n max_out min_out b).1
unfolding reserve
reserve-IsLater env scope spec n max_out min_out b = record {
  calls_kept = ground arith;
  newer = λ p e. ground arith;
}

settle-IsLater :
    (env : Env) (r : Reservation) (usage : ModelUsage) (b : RunBudget)
    → IsLater b (settle env r usage b).1
unfolding settle
settle-IsLater env r usage b = record { calls_kept = ground arith; newer = λ p e. ground arith }

record_failure-IsLater :
    (env : Env) (r : Reservation) (is_timeout : Bool) (b : RunBudget)
    → IsLater b (record_failure env r is_timeout b).1
unfolding record_failure
record_failure-IsLater env r is_timeout b = record {
  calls_kept = ground arith;
  newer = λ p e. ground arith;
}

charge_for_retry-IsLater :
    (env : Env) (r : Reservation) (b : RunBudget) → IsLater b (charge_for_retry env r b).1
unfolding charge_for_retry
charge_for_retry-IsLater env r b = record { calls_kept = ground arith; newer = λ p e. ground arith }

charge_failed_request-IsLater :
    (env : Env) (b : RunBudget) → IsLater b (charge_failed_request env b).1
unfolding charge_failed_request
charge_failed_request-IsLater env b = record {
  calls_kept = ground arith;
  newer = λ p e. ground arith;
}

record IsSound (s : System) : Type 0 where
  inv : Inv s.budget
  known : (r : Reservation) → Memᴰ r s.returned → IsIssued s.budget r

-- The reservation that `reserve` returns is the one that it wrote.
IsIssued-new :
    (env : Env) (scope : Role) (spec : ModelSpec) (n max_out min_out : ℕ) (b b' : RunBudget)
    (r : Reservation)
    → IsPriced spec
    → reserve env scope spec n max_out min_out b ≡ (ok r, b')
    → IsIssued b' r
IsIssued-new env scope spec n max_out min_out b b' r priced h =
    let (p, worst, receipt, opening, stored, told, granted) =
      reserve_durable env scope spec n max_out min_out b b' r h in
    record {
      priced = rw (receipt.same_spec) priced;
      bounded = ground (
        arith, receipt.same_spec, receipt.same_cost, receipt.same_tokens, worst.worst_cost,
        worst.of_input,
      );
      counted = ground (arith, receipt.same_call, worst.next_call, opening.counted);
      same = λ q e own. ground (arith, receipt.same_scope, receipt.same_cost, opening.pending);
    }

add_returned-IsSound :
    (rs : List Reservation) (out : Result Reservation × RunBudget)
    → Inv out.1
    → ((r : Reservation) → Memᴰ r rs → IsIssued out.1 r)
    → ((r : Reservation) → out ≡ (ok r, out.1) → IsIssued out.1 r)
    → IsSound (add_returned rs out)
add_returned-IsSound rs (err e, b) inv old new = record { inv = inv; known = old }
add_returned-IsSound rs (ok r, b) inv old new = record { inv = inv; known = known }
  where
    known : (q : Reservation) → Memᴰ q (r ∷ rs) → IsIssued b q
    known q (Memᴰ.head e) = subst (IsIssued b) (sym e) (new r refl)
    known q (Memᴰ.tail m) = old q m

Step-IsSound : {s t : System} → Step s t → IsSound s → IsSound t
Step-IsSound {s} (reserves env scope spec n max_out min_out priced) sound =
    let b = s.budget in
    let out = reserve env scope spec n max_out min_out b in
    let later = reserve-IsLater env scope spec n max_out min_out b in
    add_returned-IsSound s.returned out (reserve-Inv env scope spec n max_out min_out b sound.inv)
      (λ r m. IsIssued-later later r (sound.known r m))
      (λ r e. IsIssued-new env scope spec n max_out min_out b out.1 r priced e)
Step-IsSound {s} (settles env r usage m honest) sound = record {
  inv = settle-Inv env r usage s.budget sound.inv (sound.known r m) honest;
  known = λ q n. IsIssued-later (settle-IsLater env r usage s.budget) q (sound.known q n);
}
Step-IsSound {s} (fails env r is_timeout m) sound = record {
  inv = record_failure-Inv env r is_timeout s.budget sound.inv;
  known =
      λ q n. IsIssued-later (record_failure-IsLater env r is_timeout s.budget) q (sound.known q n);
}
Step-IsSound {s} (retries env r m) sound = record {
  inv = charge_for_retry-Inv env r s.budget sound.inv (sound.known r m);
  known = λ q n. IsIssued-later (charge_for_retry-IsLater env r s.budget) q (sound.known q n);
}
Step-IsSound {s} (gives_up env) sound = record {
  inv = charge_failed_request-Inv env s.budget sound.inv;
  known = λ q n. IsIssued-later (charge_failed_request-IsLater env s.budget) q (sound.known q n);
}

-- The manifest of a run that has made no model call.
pub record IsFresh (m : Manifest) : Type 0 where
  pub no_calls : m.model_calls ≡ 0
  pub no_cost : m.model_cost_usd ≡ 0
  pub no_reservation : m.model_reservation ≡ none

abbrev pub start : RunBudget → System
start b = record { budget = b; returned = [] }

start-IsSound :
    (m : Manifest) (max_cost_nano max_calls minutes clock : ℕ) (b : RunBudget)
    → IsFresh m
    → create m max_cost_nano max_calls minutes clock ≡ ok b
    → IsSound (start b)
unfolding create
start-IsSound m max_cost_nano max_calls minutes clock b fresh e = record {
  inv = ground arith;
  known = λ r member. elim member [ ];
}

Reach-IsSound : {s t : System} → IsSound s → Reach s t → IsSound t
Reach-IsSound sound here = sound
Reach-IsSound sound (next r st) = Step-IsSound st (Reach-IsSound sound r)

require_owned_error :
    (env : Env) (r : Reservation) (b : RunBudget) → require_owned env r b ≢ err policy_error
unfolding require_owned
require_owned_error env r b h = ground arith

cost_error : (spec : ModelSpec) (usage : ModelUsage) → cost spec usage ≢ err policy_error
unfolding cost
cost_error spec usage h = ground arith

module _ (m : Manifest) (max_cost_nano max_calls minutes clock : ℕ) (b : RunBudget)
    (fresh : IsFresh m) (created : create m max_cost_nano max_calls minutes clock ≡ ok b)
    (s : System) (reached : Reach (start b) s) where
  sound : IsSound s
  sound =
      Reach-IsSound (start-IsSound m max_cost_nano max_calls minutes clock b fresh created) reached

  -- However the methods are called, and whatever fails in between, a run of priced models whose
  -- provider bills within its reservations never has more charged and pending than its cap, setup,
  -- the agent and triage are never charged more than their shares of it, and no more requests are
  -- counted than the run may make.
  pub spending_capped :
      (s.budget.manifest.model_cost_usd + pending_cost s.budget.manifest.model_reservation
        ≤ max_cost_usd s.budget)
      × (s.budget.spent.by_setup ≤ share_of 15 s.budget)
      × (s.budget.spent.by_agent ≤ share_of 55 s.budget)
      × (s.budget.spent.by_triage ≤ share_of 10 s.budget)
      × (s.budget.manifest.model_calls ≤ s.budget.max_model_calls)
  spending_capped = let inv = sound.inv in omega arith

  -- Whenever no reservation is pending in a run of priced models whose provider bills within its
  -- reservations, what the critic may still spend and what it has spent come to at least its
  -- floor, whatever the other phases did and whatever failed.
  pub critic_floor :
      s.budget.manifest.model_reservation ≡ none
      → scope_size critic s.budget ≤ cost_left critic s.budget + s.budget.spent.by_critic
  unfolding scope_size cost_left
  critic_floor idle = let inv = sound.inv in ground (arith, inv)

  -- In any budget that a run of priced models reaches while its provider bills within reservations,
  -- settling a turn that was billed within its reservation never raises PolicyError: no limit is
  -- found exceeded.
  pub settle_within :
      (env : Env) (r : Reservation) (usage : ModelUsage)
      → Memᴰ r s.returned
      → IsHonest r usage
      → (settle env r usage s.budget).0 ≢ err policy_error
  unfolding settle
  settle_within env r usage member honest raised =
      elim (Result-cases (require_owned env r s.budget)) [
        | inr (e, refused) ↦ ground (arith, require_owned_error env r s.budget)
        | inl (tt, owned) ↦ elim (Result-cases (cost r.spec usage)) [
          | inr (e, refused) ↦ ground (arith, cost_error r.spec usage)
          | inl (actual, priced) ↦
              let (kept, clean) =
                settled-Inv env r usage actual s.budget sound.inv (sound.known r member) honest
                  owned priced in
              ground arith
        ]
      ]
