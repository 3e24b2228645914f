-- ===== src/Router.antt =====
-- scripts/serve_fashn_vton_router.py: the router in front of the FASHN VTON workers.
pub mod State
pub mod Schedule
pub mod Scan
pub mod Fairness
pub mod Body
pub mod Requests
pub mod Traffic
pub mod Loads
pub mod Counters
mod Tests
