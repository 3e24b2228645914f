-- ===== src/Admission.antt =====
-- src/tryops/native_admission.py: the admission controller in Python, which runs where the native
-- one is not built: a token bucket, a bulkhead on concurrent requests, and a circuit breaker.
pub mod State
pub mod Controller
pub mod Windows
pub mod Accounting
pub mod Bulkhead
pub mod Cooldown
pub mod Tests
