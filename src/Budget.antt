-- ===== src/Budget.antt =====
-- src/autocontribute/budget.py: the model budget of one run. State holds what RunBudget and its
-- manifest keep, Operations the methods; the other children prove what they promise.
pub mod State
pub mod Operations
pub mod Reserve
pub mod Invariant
pub mod Trace
pub mod Settle
mod Tests
