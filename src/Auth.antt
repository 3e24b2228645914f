-- ===== src/Auth.antt =====
-- src/tryops/auth.py: API keys, their registry, and what a session may do.
pub mod Keys
pub mod Audit
pub mod Session
pub mod Authorized
pub mod Search
pub mod Shown
pub mod Navigation
pub mod Unambiguous
mod Tests
