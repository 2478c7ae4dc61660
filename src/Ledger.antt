-- ===== src/Ledger.antt =====
-- The event ledger of src/autocontribute/store.py: the hash chain of each run and its verification.
pub mod Chain
pub mod Follow
pub mod Rows
pub mod Appended
pub mod Sound
pub mod Heads
pub mod Verified
pub mod Unique
mod Tests
