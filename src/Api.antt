-- ===== src/Api.antt =====
-- src/tryops/api.py: what the endpoints do with the records of the components.
pub mod Merge
pub mod Loop
pub mod Strongest
pub mod Concurrency
mod Tests
