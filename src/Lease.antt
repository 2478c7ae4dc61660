-- ===== src/Lease.antt =====
-- The fenced leases of src/autocontribute/store.py (acquire_lease, heartbeat_lease, release_lease,
-- release_all_leases, get_lease, assert_lease), and the guard of src/autocontribute/coordination.py
-- that a worker holds one with. Cell holds one lease's rows and the operations on them, Store the two
-- tables, Grants what one operation does, Fencing what holds of every sequence of operations, Guard
-- the guard's methods, Guarded and Entered what they promise.
pub mod Cell
pub mod Grants
pub mod Store
pub mod Fencing
pub mod Guard
pub mod Guarded
pub mod Entered
mod Tests
