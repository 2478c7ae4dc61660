-- ===== src/Safety/State.antt =====
-- The tables `circuit_breaker`, `circuit_breaker_events`, `holds` and `secondary_rate_limit_streak` of
-- src/autocontribute/store.py, and what the operations on them call outside. Texts stand as
-- `_bounded_text`, `_lease_identity` and `_hold_key` returned them.
use autocontribute.Base.{ℕ, String, Option, Bool, List, [], none, false}

-- source, reason and trigger_hash of a CircuitBreakerTrigger
pub record Trigger : Type 0 where
  pub source : String
  pub reason : String
  pub trigger_hash : String

-- StopScope
pub data StopScope : Type 0 where
  globally publication repository pull_request : StopScope

-- CircuitBreakerTrigger
pub record Stop : Type 0 where
  pub evidence : Trigger
  pub scope : StopScope
  pub scope_key : String
  pub expires_at : Option ℕ
  pub counts_toward_escalation : Bool

-- an `event_type`
pub data Kind : Type 0 where
  tripped resumed : Kind

-- a row of `circuit_breaker_events`; a resumption has its actor, reason and the revision
pub record BreakerEvent : Type 0 where
  pub epoch : ℕ
  pub occurred_at : ℕ
  pub kind : Kind
  pub evidence : Trigger

-- the row of `circuit_breaker`; its three texts are NULL together, by the table's CHECK
pub record Breaker : Type 0 where
  pub is_tripped : Bool
  pub epoch : ℕ
  pub changed_at : ℕ
  pub evidence : Option Trigger

-- a row of `holds`
pub record HoldRow : Type 0 where
  pub id : ℕ
  pub scope : StopScope
  pub scope_key : String
  pub evidence : Trigger
  pub counts_toward_escalation : Bool
  pub created_at : ℕ
  pub expires_at : Option ℕ
  pub released_at : Option ℕ

-- the row of `secondary_rate_limit_streak`; its time is kept as the text that is stored
pub record Streak : Type 0 where
  pub consecutive_runs : ℕ
  pub started_at : Option String

pub record Safety : Type 0 where
  pub breaker : Breaker
  pub events : List BreakerEvent
  pub holds : List HoldRow
  pub streak : Streak

-- the tables as `_create_schema` fills them
abbrev pub new_safety : ℕ → Safety
new_safety now = record {
  breaker = record { is_tripped = false; epoch = 1; changed_at = now; evidence = none };
  events = [];
  holds = [];
  streak = record { consecutive_runs = 0; started_at = none };
}

-- What the operations call of Python's libraries: the SHA-256 of a text, that of a list of triggers
-- written as canonical JSON, a number and a time as texts, and case folding, which agrees with
-- SQLite's NOCASE on the ASCII keys of holds.
pub record Library : Type 0 where
  pub sha256 : String → String
  pub json_sha256 : List Trigger → String
  pub show : ℕ → String
  pub isoformat : ℕ → String
  pub casefold : String → String
