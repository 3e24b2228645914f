-- ===== src/Quota.antt =====
-- src/tryops/quota.py: daily usage quotas per user and plan. The ledger is in Quota/Ledger.antt,
-- the choice between the gateway and the ledger in Quota/Gateway.antt.
pub mod Ledger
pub mod Charges
pub mod Decisions
pub mod Accounting
pub mod Gateway
pub mod Snapshot
mod Tests
