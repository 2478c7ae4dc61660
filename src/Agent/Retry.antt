-- ===== src/Agent/Retry.antt =====
-- retry_decision of src/autocontribute/model_retry.py. Times are in microseconds, `jitter` is in
-- millionths, and the wait is rounded down to a microsecond. The decision's reason, a text, is left
-- out.
use autocontribute.Base.{
  ℕ, ◌+◌, ◌-◌, ◌*◌, ◌/◌, ◌^◌, ◌≤◌, ◌<◌, min, String, Option, none, some, Bool, true, false, not,
  ◌||◌, List, [], ◌∷◌, ◌≡◌, ◌↔◌, any, arith, str_eq, ltb, leb, ◌==◌, if◌then◌else◌,
}

abbrev quota_codes : List String
quota_codes =
    "insufficient_quota" ∷ "credit_balance_exhausted" ∷ "organization_spend_limit_exceeded"
    ∷ "project_spend_limit_exceeded" ∷ "organization_usage_limit_exceeded" ∷ []

abbrev policy_codes : List String
policy_codes = "cyber_policy" ∷ "misalignment_policy_violation" ∷ []

-- `provider_code in PROVIDER_ERROR_CODES`
unfoldable pub is_provider_error : Option String → Bool
is_provider_error none = false
is_provider_error (some code) = any (str_eq code) quota_codes || any (str_eq code) policy_codes

abbrev pub retriable_statuses : List ℕ
retriable_statuses = 408 ∷ 409 ∷ 429 ∷ 500 ∷ 502 ∷ 503 ∷ 504 ∷ 529 ∷ []

abbrev pub max_retry_wait : ℕ
max_retry_wait = 120_000_000

abbrev pub max_attempts : ℕ
max_attempts = 3

pub record RetryDecision : Type 0 where
  pub retry : Bool
  pub wait : ℕ

abbrev pub give_up : RetryDecision
give_up = record { retry = false; wait = 0 }

-- a timeout, a connection that failed, or a status that another attempt may mend
unfoldable pub is_transient : Bool → Option ℕ → Bool
is_transient true status = true
is_transient false none = true
is_transient false (some status) = any (λ s. s == status) retriable_statuses

-- the wait for a delay: lengthened by up to a quarter, and at most MAX_RETRY_WAIT_SECONDS
abbrev pub wait_for : ℕ → ℕ → RetryDecision
wait_for delay jitter = record {
  retry = true;
  wait = min (delay + delay * jitter / 4_000_000) max_retry_wait;
}

unfoldable pub retry_decision : Option ℕ → Option String → Option ℕ → Bool → ℕ → ℕ → RetryDecision
unfolding is_provider_error is_transient
retry_decision status provider_code retry_after timed_out attempt jitter =
    if is_provider_error provider_code || not (is_transient timed_out status)
    then give_up
    else (if leb max_attempts attempt then give_up else elim retry_after [
      | none ↦ wait_for (10_000_000 * 3 ^ (attempt - 1)) jitter
      | some asked ↦ if ltb max_retry_wait asked then give_up else wait_for asked jitter
    ])

-- the wait that a provider asked for is one the caller is ready for
abbrev IsShort : Option ℕ → Type 0
IsShort none = Unit
IsShort (some asked) = asked ≤ max_retry_wait

-- A failed request is sent again exactly when its failure is transient, the provider's code is not
-- a quota or a policy stop, fewer than three attempts were made and the provider asked for no wait
-- above two minutes.
pub retry_decision_when :
    (status : Option ℕ) (provider_code : Option String) (retry_after : Option ℕ) (timed_out : Bool)
    (attempt jitter : ℕ)
    → ((retry_decision status provider_code retry_after timed_out attempt jitter).retry ≡ true) ↔ (
        (is_provider_error provider_code ≡ false)
        × (is_transient timed_out status ≡ true)
        × (attempt < max_attempts)
        × IsShort retry_after)
unfolding retry_decision
retry_decision_when status provider_code none timed_out attempt jitter = ground arith
retry_decision_when status provider_code (some asked) timed_out attempt jitter = ground arith

-- When the provider asked for a wait and the request is sent again, the wait before it is at least
-- the one asked for and at most two minutes.
pub retry_decision-wait :
    (status : Option ℕ) (provider_code : Option String) (asked : ℕ) (timed_out : Bool)
    (attempt jitter : ℕ)
    → (retry_decision status provider_code (some asked) timed_out attempt jitter).retry ≡ true
    → (asked ≤ (retry_decision status provider_code (some asked) timed_out attempt jitter).wait)
      × ((retry_decision status provider_code (some asked) timed_out attempt jitter).wait
          ≤ max_retry_wait)
unfolding retry_decision
retry_decision-wait status provider_code asked timed_out attempt jitter h = ground arith
