-- ===== src/Safety/Breaker.antt =====
-- The circuit breaker: _trip_circuit_breaker, circuit_breaker_status, assert_circuit_breaker_clear,
-- resume_circuit_breaker and _verify_circuit_breaker_evidence. Each runs in one write transaction: a
-- raise leaves the tables as they were, so a result holds the tables only when there was none.
use autocontribute.Base.{
  ℕ, ◌+◌, String, Option, none, some, Bool, true, false, not, ◌&&◌, ◌||◌, List, [], ◌∷◌, ◌++◌,
  length, str_eq, leb, ltb, ◌==◌, is_none, if◌then◌else◌,
}
use autocontribute.Errors.{state_error, integrity_error, Result, ok, err, ◌>>=◌, ◌>>◌, raise_if}
use autocontribute.Lease.Cell.{is_generation, max_generation}
use autocontribute.Safety.State.{Trigger, Kind, tripped, resumed, BreakerEvent, Safety, Library}

abbrev pub max_active_triggers : ℕ
max_active_triggers = 10_000

abbrev pub same_kind : Kind → Kind → Bool
same_kind tripped tripped = true
same_kind resumed resumed = true
same_kind _ _ = false

-- the row that UNIQUE(event_type, trigger_hash) allows once
abbrev pub find_event : Kind → String → List BreakerEvent → Option BreakerEvent
find_event kind hash [] = none
find_event kind hash (e ∷ es) =
    if same_kind e.kind kind && str_eq e.evidence.trigger_hash hash
    then some e
    else find_event kind hash es

-- the trip events of an epoch, in the order of their ids
abbrev pub triggers_of : ℕ → List BreakerEvent → List Trigger
triggers_of epoch [] = []
triggers_of epoch (e ∷ es) =
    let rest = triggers_of epoch es in
    if e.epoch == epoch && same_kind e.kind tripped then e.evidence ∷ rest else rest

-- RunStore._active_circuit_breaker_triggers
unfoldable pub active_triggers : ℕ → List BreakerEvent → Result (List Trigger)
active_triggers epoch events =
    let active = triggers_of epoch events in
    if ltb max_active_triggers (length active) then err state_error else ok active

-- RunStore._circuit_breaker_revision
unfoldable pub revision_of : Library → List Trigger → Result String
revision_of lib [] = err state_error
revision_of lib (t ∷ ts) = ok (lib.json_sha256 (t ∷ ts))

abbrev pub trip_event : ℕ → ℕ → Trigger → BreakerEvent
trip_event epoch now t = record { epoch = epoch; occurred_at = now; kind = tripped; evidence = t }

-- RunStore._trip_circuit_breaker
unfoldable pub trip : ℕ → Trigger → Safety → Result (Bool × Safety)
trip now t s =
    if not (is_generation s.breaker.epoch)
    then err state_error
    else elim (find_event tripped t.trigger_hash s.events) [
      | none ↦ ok (
        true,
        record s {
          events = s.events ++ trip_event s.breaker.epoch now t ∷ [];
          breaker = record (s.breaker) { is_tripped = true; changed_at = now; evidence = some t };
        },
      )
      | some e ↦
          if str_eq e.evidence.source t.source && str_eq e.evidence.reason t.reason
          then ok (false, s)
          else err state_error
    ]

-- CircuitBreakerStatus
pub record Status : Type 0 where
  pub is_tripped : Bool
  pub epoch : ℕ
  pub changed_at : ℕ
  pub evidence : Option Trigger
  pub active_revision : Option String
  pub active_triggers : List Trigger

abbrev pub is_empty : List Trigger → Bool
is_empty [] = true
is_empty (_ ∷ _) = false

abbrev pub same_bool : Bool → Bool → Bool
same_bool true b = b
same_bool false b = not b

abbrev pub optional_revision : Library → List Trigger → Option String
optional_revision lib [] = none
optional_revision lib (t ∷ ts) = some (lib.json_sha256 (t ∷ ts))

-- RunStore.circuit_breaker_status
unfoldable pub circuit_breaker_status : Library → Safety → Result Status
unfolding active_triggers
circuit_breaker_status lib s = do
  raise_if (not (is_generation s.breaker.epoch)) state_error
  let row = s.breaker
  active_triggers row.epoch s.events >>= λ active.
      (if not (same_bool row.is_tripped (not (is_none row.evidence)))
          || not (same_bool row.is_tripped (not (is_empty active)))
        then err state_error
        else ok (record {
          is_tripped = row.is_tripped;
          epoch = row.epoch;
          changed_at = row.changed_at;
          evidence = row.evidence;
          active_revision = optional_revision lib active;
          active_triggers = active;
        }))

-- RunStore.assert_circuit_breaker_clear
unfoldable pub assert_circuit_breaker_clear : Library → Safety → Result (Unit {0})
unfolding circuit_breaker_status
assert_circuit_breaker_clear lib s =
    circuit_breaker_status lib s >>= λ status. raise_if status.is_tripped state_error

-- The state after a resumption of its row's epoch
abbrev pub cleared : ℕ → String → String → String → Safety → Safety
cleared now actor reason revision s = record s {
  events =
      s.events
      ++ record {
        epoch = s.breaker.epoch;
        occurred_at = now;
        kind = resumed;
        evidence = record { source = actor; reason = reason; trigger_hash = revision };
      }
        ∷ [];
  breaker = record {
    is_tripped = false;
    epoch = s.breaker.epoch + 1;
    changed_at = now;
    evidence = none;
  };
}

-- RunStore.resume_circuit_breaker; without evidence in the row the UPDATE would match nothing
unfoldable pub resume : Library → ℕ → String → String → String → Safety → Result (Bool × Safety)
unfolding active_triggers revision_of
resume lib now actor reason expected s = if not s.breaker.is_tripped then ok (false, s) else (do
  raise_if (not (is_generation s.breaker.epoch)) state_error
  active_triggers s.breaker.epoch s.events >>= λ active.
      (revision_of lib active >>= λ revision. (do
        raise_if (not (str_eq revision expected)) state_error
        raise_if (leb max_generation s.breaker.epoch) state_error
        raise_if (not (is_none (find_event resumed expected s.events))) integrity_error
        raise_if (is_none s.breaker.evidence) state_error
        ok (true, cleared now actor reason expected s))))

-- the last of a list
abbrev pub last : List Trigger → Option Trigger
last [] = none
last (t ∷ ts) = elim (last ts) [ none ↦ some t | some u ↦ some u ]

abbrev pub same_trigger : Option Trigger → Option Trigger → Bool
same_trigger (some t) (some u) =
    str_eq t.source u.source && (str_eq t.reason u.reason && str_eq t.trigger_hash u.trigger_hash)
same_trigger _ _ = false

-- _verify_circuit_breaker_evidence
unfoldable pub verify_evidence : Safety → Result (Unit {0})
unfolding active_triggers
verify_evidence s = do
  raise_if (not (is_generation s.breaker.epoch)) state_error
  active_triggers s.breaker.epoch s.events >>= λ active.
      (if not (same_bool s.breaker.is_tripped (not (is_empty active)))
        then err state_error
        else (if not (is_empty active) && not (same_trigger (last active) s.breaker.evidence)
            then err state_error
            else ok tt))
