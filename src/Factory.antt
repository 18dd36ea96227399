-- ===== src/Factory.antt =====
-- The factory contract, sputnikdao-factory2/src.
pub mod Data
pub mod Manager
pub mod Methods
pub mod Calls
pub mod Owner
pub mod Consistency
pub mod Invariant
pub mod Creation
pub mod Outcome
pub mod Tests
