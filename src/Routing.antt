-- ===== src/Routing.antt =====
-- src/tryops/routing.py: which model serves a request.
pub mod Alias
pub mod Canary
pub mod Models
pub mod Expected
pub mod Shares
mod Tests
