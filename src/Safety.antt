-- ===== src/Safety.antt =====
-- The safety stops of src/autocontribute/store.py: the circuit breaker and its evidence (Breaker), holds
-- and the streak of rate limits (Holds), and what follows over any sequence of their operations.
pub mod State
pub mod Breaker
pub mod Holds
pub mod Steps
pub mod Events
pub mod Evidence
pub mod Review
pub mod Held
mod Tests
