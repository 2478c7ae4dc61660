-- ===== src/Agent.antt =====
-- The agent's conversation with a model: when a failed request is sent again (model_retry.py), one
-- request and its budget, the turns of a transcript, and the submits of a fix (agent_loop.py).
pub mod Retry
pub mod Submit
pub mod Rounds
pub mod Request
pub mod Attempts
pub mod Turns
pub mod Fixes
pub mod Limits
pub mod Ending
mod Tests
