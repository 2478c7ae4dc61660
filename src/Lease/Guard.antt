-- ===== src/Lease/Guard.antt =====
-- LeaseHeartbeatGuard of src/autocontribute/coordination.py: one worker's hold on one lease name, with
-- a thread that renews it. Each method is one step between the two threads; the reason for which a
-- lease was lost is left out.
use autocontribute.Base.{
  ℕ, String, Option, none, some, Bool, true, false, ◌||◌, not, is_none, if◌then◌else◌,
}
use autocontribute.Errors.{state_error, Result, ok, err}
use autocontribute.Lease.Cell.{Row, Cell, acquire, heartbeat, release, assert_lease}

pub record Guard : Type 0 where
  pub lease : Option Row
  pub running : Bool
  pub stopped : Bool
  pub lost : Bool

-- LeaseHeartbeatGuard._mark_lost
abbrev pub mark_lost : Guard → Guard
mark_lost g = record g { lost = true; stopped = true }

abbrev pub inactive : Guard
inactive = record { lease = none; running = false; stopped = false; lost = false }

-- the end of `__enter__`, after `acquire_lease`
abbrev entered : Guard → Cell → Result (Option Cell) → Result (Unit {0}) × Guard × Cell
entered g cell (err e) = (err e, g, cell)
entered g cell (ok none) = (err state_error, g, cell)
entered g cell (ok (some later)) = (ok tt, record g { lease = later.row; running = true }, later)

-- LeaseHeartbeatGuard.__enter__
unfoldable pub enter : String → ℕ → ℕ → Guard → Cell → Result (Unit {0}) × Guard × Cell
enter owner ttl now g cell =
    if not (is_none g.lease) || g.running
    then (err state_error, g, cell)
    else entered (record g { lost = false; stopped = false }) cell (acquire owner now ttl cell)

-- what `assert_owned` does with the store's answer; only a StateError marks the lease as lost
abbrev asserted : Guard → Result Row → Result Row × Guard
asserted g (err state_error) = (err state_error, mark_lost g)
asserted g (err e) = (err e, g)
asserted g (ok current) = (ok current, record g { lease = some current })

-- LeaseHeartbeatGuard.assert_owned
unfoldable pub assert_owned : String → ℕ → Guard → Cell → Result Row × Guard
assert_owned owner now g cell = elim (g.lease) [
  | none ↦ (err state_error, g)
  | some row ↦
      if g.lost
      then (err state_error, g)
      else asserted g (assert_lease owner row.generation now cell)
]

-- what the thread does with the store's answer
abbrev renewed : Guard → Cell → Result (Option Cell) → Guard × Cell
renewed g cell (err e) = (mark_lost g, cell)
renewed g cell (ok none) = (mark_lost g, cell)
renewed g cell (ok (some later)) = (record g { lease = later.row }, later)

-- one round of LeaseHeartbeatGuard._heartbeat_loop
unfoldable pub beat : String → ℕ → ℕ → Guard → Cell → Guard × Cell
beat owner ttl now g cell = if g.stopped || not g.running then (g, cell) else elim (g.lease) [
  | none ↦ (g, cell)
  | some row ↦ renewed g cell (heartbeat owner row.generation now ttl cell)
]

abbrev freed : Bool → Guard → Cell → Result (Option Cell) → Result (Unit {0}) × Guard × Cell
freed lost g cell (err e) = (err e, g, cell)
freed lost g cell (ok none) = (err state_error, g, cell)
freed lost g cell (ok (some later)) = (if lost then err state_error else ok tt, g, later)

-- LeaseHeartbeatGuard.close
unfoldable pub close : String → Guard → Cell → Result (Unit {0}) × Guard × Cell
close owner g cell =
    let g' = record g { lease = none; running = false; stopped = true } in
    elim (g.lease) [
      | none ↦ (ok tt, g', cell)
      | some row ↦ freed g.lost g' cell (release owner row.generation cell)
    ]
