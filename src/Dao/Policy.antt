-- ===== src/Dao/Policy.antt =====
-- The policy of the DAO, sputnikdao2/src/policy.rs.
pub mod Roles
pub mod Permissions
pub mod Status
pub mod Thresholds
pub mod Editing
pub mod Members
pub mod UserRoles
pub mod Access
pub mod Decision
