-- ===== src/Dao/Proposals.antt =====
-- The proposals of the DAO, sputnikdao2/src/proposals.rs.
pub mod Votes
pub mod Execution
pub mod Methods
pub mod Lifecycle
pub mod Adding
pub mod Voting
pub mod Expiry
pub mod Refund
pub mod Unclaimed
pub mod Unsettled
pub mod Bonds
