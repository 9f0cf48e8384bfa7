-- ===== src/Trade.antt =====
-- The package trade.
pub mod Submit
pub mod Internal
pub mod Estimate
pub mod Positions
pub mod Secondary
pub mod Primary
pub mod Whitelist
