-- ===== src/Errors.antt =====
-- The exceptions of src/autocontribute/exceptions.py that the modelled code raises, Python's
-- ValueError and sqlite3's IntegrityError, as values. A pure function that may raise returns a `Result`.
use autocontribute.Base.{◌≡◌, ◌⊎◌, inl, inr, refl, Bool, true, false}

-- BudgetExhaustedError.limit
pub data Limit : Type 0 where
  calls time cost : Limit

pub data Error : Type 0 where
  value_error configuration_error policy_error state_error repository_error artifact_sync_error
        integrity_error suite_report_error :
      Error
  budget_exhausted : Limit → Error

pub data Result {ℓ} (A : Type ℓ) : Type ℓ where
  err : Error → Result A
  ok : A → Result A

infixl 5 ◌>>=◌ ◌>>◌
abbrev pub ◌>>=◌ {ℓ κ} : {A : Type ℓ} {B : Type κ} → Result A → (A → Result B) → Result B
err raised >>= continuation = err raised
ok value >>= continuation = continuation value

abbrev pub ◌>>◌ {ℓ} : {B : Type ℓ} → Result (Unit {0}) → Result B → Result B
action >> following = action >>= λ _. following

-- `if condition: raise error`
abbrev pub raise_if : Bool → Error → Result (Unit {0})
raise_if true e = err e
raise_if false _ = ok tt

pub Result-cases {ℓ} :
    {A : Type ℓ} (r : Result A) → ((a : A) × (r ≡ ok a)) ⊎ ((e : Error) × (r ≡ err e))
Result-cases (ok a) = inl (a, refl)
Result-cases (err e) = inr (e, refl)
