-- ===== src/Publications.antt =====
-- The reservations of publications in src/autocontribute/store.py: the daily limit and the cooldown of a
-- repository, checked against the ledger.
pub mod Reservations
pub mod Reconciled
pub mod Consumed
pub mod Capacity
mod Tests
