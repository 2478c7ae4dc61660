-- ===== src/Pricing.antt =====
-- src/autocontribute/pricing.py: the model table's types, the price of a request, and the choice of a
-- role's model. Money is counted in units of 1e-11 USD: a rate is a whole number of them per token
-- (1e-5 USD per million tokens), so prices need no division, and every hundredth of a cap that is a
-- whole number of nano-dollars is a whole number of them.
pub mod Table
pub mod Bounds
pub mod Resolve
mod Tests
pub use Table.*
