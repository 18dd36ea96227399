-- ===== src/System.antt =====
-- The contracts together: what one of them schedules, run by the other.
pub mod Upgrades
pub mod Weights
pub mod Tests
