-- ===== src/Policy.antt =====
-- src/tryops/policy.py: the gates in front of the promotion of a model.
pub mod Model
pub mod Gates
pub mod Promotion
pub mod Conditions
pub mod Tested
pub mod Passing
pub mod Decision
mod Tests
