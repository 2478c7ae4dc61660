-- ===== src/Runs.antt =====
-- The life of a run: the states of src/autocontribute/domain.py (Status, Graph), and the methods of
-- RunStore in src/autocontribute/store.py that write its status or manifest (Store, Claim, Publish, Retire).
pub mod Status
pub mod Graph
pub mod Store
pub mod Saving
pub mod Retire
pub mod Retirable
pub mod Retired
pub mod Publish
pub mod Claim
pub mod Written
pub mod Begun
pub mod Steps
pub mod Reach
mod Tests
