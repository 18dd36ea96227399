-- ===== src/Staking.antt =====
-- The staking contract, sputnik-staking/src.
pub mod User
pub mod Methods
pub mod Storage
pub mod Calls
pub mod Views
pub mod Amounts
pub mod Totals
pub mod Users
pub mod Refunds
pub mod Sums
pub mod Tests
