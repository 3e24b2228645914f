-- ===== src/Accounts.antt =====
-- src/tryops/db.py: the members of a workspace, their roles, and the invitations to it.
pub mod Table
pub mod Store
pub mod Members
pub mod Invitations
pub mod Inviting
pub mod Owners
pub mod Joining
pub mod Operations
pub mod Tests
