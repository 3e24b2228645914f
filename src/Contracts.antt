-- ===== src/Contracts.antt =====
-- src/tryops/api_contracts.py: the validation of the requests of the API.
pub mod Checks
pub mod Vton
pub mod Passing
pub mod Accepted
pub mod Tests
