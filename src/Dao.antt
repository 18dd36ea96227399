-- ===== src/Dao.antt =====
-- The DAO contract, sputnikdao2/src.
pub mod Types
pub mod Data
pub mod Policy
pub mod Contract
pub mod Delegation
pub mod Upgrade
pub mod Bounties
pub mod Proposals
pub mod Bonds
pub mod Calls
pub mod Frame
pub mod Invariant
pub mod Views
pub mod Tests
